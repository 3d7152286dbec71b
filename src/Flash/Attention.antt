-- ===== src/Flash/Attention.antt =====
-- `launch_flash_attn_bf16` (kernels/flash_attn.cu) against attention as it is defined: for each head and
-- query, the softmax of its scores over the keys it may see, applied to their values.
use amp.Prelude.{
  ℕ, ◌+◌, ◌-◌, ◌*◌, ◌/◌, ◌%◌, ◌≤◌, ◌<◌, ◌≡◌, refl, sym, ap, ◌∙◌, subst, Bool, true, none, some,
  if◌then◌else◌, min, arith, inl, inr,
}
use amp.Matmul.{Gpu, sum_loop}
use amp.Matmul.Sums.{sum_loop-shift}
use amp.Matmul.Orders.{Covers}
use amp.Flash.{FlashOps, q_row, flash_attn_fwd_kernel}
use amp.Flash.Exact.{IsExact, total, total_below}
use amp.Flash.Loads.{raw_score, visible}
use amp.Flash.Blocks.{flash_attn_fwd_kernel_lem}
use amp.Flash.Dispatch.{Tiles, is_compiled, chosen, select-chosen, IsTile, is_compiled-IsTile}
use amp.Flash.Launch.{
  AttnCfg, Out, q_base, kv_base, block_at, launch_fa, used_scale, launch_selected,
  dispatch_flash_attn, launch_flash_attn_bf16,
}
use amp.Flash.Output.{base_is, launch_fa-Right}

-- The rows of the compiled tiles divide their keys, and none of their sizes is 0.
IsTile-whole :
    (br bc dim : ℕ) → IsTile br bc dim → (0 < br) × (0 < bc) × (0 < dim) × (bc ≡ bc / br * br)
IsTile-whole br bc dim tile = elim tile [
  | inl (rows, keys, cols) ↦ rw (rows, keys, cols) (omega arith, omega arith, omega arith, refl)
  | inr (inl (rows, keys, cols)) ↦
      rw (rows, keys, cols) (omega arith, omega arith, omega arith, refl)
  | inr (inr (inl (rows, keys, cols))) ↦
      rw (rows, keys, cols) (omega arith, omega arith, omega arith, refl)
  | inr (inr (inr (inl (rows, keys, cols)))) ↦
      rw (rows, keys, cols) (omega arith, omega arith, omega arith, refl)
  | inr (inr (inr (inr (inl (rows, keys, cols))))) ↦
      rw (rows, keys, cols) (omega arith, omega arith, omega arith, refl)
  | inr (inr (inr (inr (inr (rows, keys, cols))))) ↦
      rw (rows, keys, cols) (omega arith, omega arith, omega arith, refl)
]

last_tile : (br s i : ℕ) → 0 < br → s % br ≡ 0 → i < s → i / br * br + br ≤ s
last_tile br s i pos whole less = grind arith

module _ (gpu : Gpu) (ops : FlashOps gpu) (exact : IsExact gpu ops) where
  open gpu use {Float, f_zero, mul}
  open ops use {to_float, to_bf16}

  -- Relative to the score `c`, `x` is the average of `n` values, weighted with the exponentials of the
  -- scores.
  abbrev pub IsSoftmax : (ℕ → Float) → (ℕ → Float) → ℕ → Float → Float → Type 0
  IsSoftmax score value n c x =
      let w = λ (j : ℕ). ops.exp (ops.sub (score j) c) in
      (ops.lt f_zero (total gpu ops exact w n) ≡ true)
      × (mul (total gpu ops exact w n) x ≡ total gpu ops exact (λ j. mul (w j) (value j)) n)

  IsSoftmax-same :
      (score score' value value' : ℕ → Float) (n n' : ℕ) (c x : Float)
      → ((j : ℕ) → score j ≡ score' j)
      → ((j : ℕ) → value j ≡ value' j)
      → n ≡ n'
      → IsSoftmax score value n c x
      → IsSoftmax score' value' n' c x
  IsSoftmax-same score score' value value' n n' c x scores values keys (positive, average) =
      let weight : (j : ℕ) → ops.exp (ops.sub (score j) c) ≡ ops.exp (ops.sub (score' j) c) =
        λ j. ap (λ y. ops.exp (ops.sub y c)) (scores j) in
      let sums : total gpu ops exact (λ j. ops.exp (ops.sub (score j) c)) n
          ≡ total gpu ops exact (λ j. ops.exp (ops.sub (score' j) c)) n' =
        total_below gpu ops exact _ _ n (λ j less. weight j)
        ∙ ap (total gpu ops exact (λ j. ops.exp (ops.sub (score' j) c))) keys in
      let averages =
        total_below gpu ops exact (λ j. mul (ops.exp (ops.sub (score j) c)) (value j))
          (λ j. mul (ops.exp (ops.sub (score' j) c)) (value' j)) n
          (λ j less.
            ap (λ y. mul y (value j)) (weight j)
            ∙ ap (mul (ops.exp (ops.sub (score' j) c))) (values j))
        ∙ ap (total gpu ops exact (λ j. mul (ops.exp (ops.sub (score' j) c)) (value' j))) keys in
      (ap (ops.lt f_zero) (sym sums) ∙ positive, ap (λ y. mul y x) (sym sums) ∙ average ∙ averages)

  module _ (cfg : AttnCfg gpu ops) (s_q s_kv : ℕ) (q k v : ℕ → ops.Bf16) where
    -- The entry of a tensor `[B, H, S, d]` whose heads are numbered across the batch.
    abbrev pub entry : ℕ → ℕ → ℕ → ℕ → ℕ
    entry len head row d = (head * len + row) * cfg.head_dim + d

    -- The head of K and V that serves a head of the queries.
    abbrev pub kv_head : ℕ → ℕ
    kv_head bh =
        bh / cfg.num_q_heads * cfg.num_kv_heads
        + bh % cfg.num_q_heads / (cfg.num_q_heads / cfg.num_kv_heads)

    abbrev pub attn_score : ℕ → ℕ → ℕ → Float
    attn_score bh i j =
        mul
          (sum_loop gpu
            (λ d.
              mul (to_float (q (entry s_q bh i d))) (to_float (k (entry s_kv (kv_head bh) j d))))
            cfg.head_dim 0 f_zero)
          (used_scale gpu ops cfg)

    abbrev pub attn_value : ℕ → ℕ → ℕ → Float
    attn_value bh d j = to_float (v (entry s_kv (kv_head bh) j d))

    abbrev pub attn_keys : ℕ → ℕ
    attn_keys i = if cfg.causal then min s_kv (i + 1) else s_kv

    module _ (br bc : ℕ) where
      abbrev tiles : Tiles
      tiles = record { br = br; bc = bc; head_dim = cfg.head_dim }

      kv_base_is :
          (bh : ℕ)
          → kv_base gpu ops cfg tiles s_q s_kv (used_scale gpu ops cfg) q k v bh
            ≡ kv_head bh * s_kv * cfg.head_dim
      kv_base_is bh = grind arith

      entry_at :
          (len head row d base : ℕ)
          → base ≡ head * len * cfg.head_dim
          → base + (row * cfg.head_dim + d) ≡ entry len head row d
      entry_at len head row d base is_ = grind (arith, is_)

      module _ (q_tile bh row i : ℕ) (here : q_tile * br + row ≡ i) where
        score_is :
            (j : ℕ)
            → raw_score gpu ops
                (block_at gpu ops cfg tiles s_q s_kv (used_scale gpu ops cfg) q k v q_tile bh)
                row
                j
              ≡ attn_score bh i j
        score_is j =
            let base = q_base gpu ops cfg tiles s_q s_kv (used_scale gpu ops cfg) q k v bh in
            let keys = kv_base gpu ops cfg tiles s_q s_kv (used_scale gpu ops cfg) q k v bh in
            ap (λ x. mul x (used_scale gpu ops cfg))
              (sum_loop-shift gpu
                (λ d.
                  mul (to_float (q (base + ((q_tile * br + row) * cfg.head_dim + d))))
                    (to_float (k (keys + (j * cfg.head_dim + d)))))
                (λ d.
                  mul (to_float (q (entry s_q bh i d)))
                    (to_float (k (entry s_kv (kv_head bh) j d))))
                0 cfg.head_dim 0 f_zero
                (λ d less.
                  (let same : d ≡ 0 + d = omega arith in
                    ap
                      (λ x.
                        mul (to_float (q (base + (x * cfg.head_dim + d))))
                          (to_float (k (keys + (j * cfg.head_dim + d)))))
                      here
                    ∙ ap (λ x. mul (to_float (q x)) (to_float (k (keys + (j * cfg.head_dim + d)))))
                        (entry_at s_q bh i d base (base_is bh cfg.num_q_heads s_q cfg.head_dim))
                    ∙ ap (λ x. mul (to_float (q (entry s_q bh i d))) (to_float (k x)))
                        (entry_at s_kv (kv_head bh) j d keys (kv_base_is bh))
                    ∙ ap
                        (λ x.
                          mul (to_float (q (entry s_q bh i x)))
                            (to_float (k (entry s_kv (kv_head bh) j x))))
                        same)))

        value_is :
            (d j : ℕ)
            → to_float (
                (block_at gpu ops cfg tiles s_q s_kv (used_scale gpu ops cfg) q k v q_tile bh).v
                  (j * cfg.head_dim + d))
              ≡ attn_value bh d j
        value_is d j =
            ap (λ x. to_float (v x))
              (entry_at s_kv (kv_head bh) j d
                (kv_base gpu ops cfg tiles s_q s_kv (used_scale gpu ops cfg) q k v bh)
                (kv_base_is bh))

    -- A launch whose queries fill their blocks, in exact arithmetic and on a device that runs each block
    -- and each thread once, in whatever order: it returns, and every entry of the output is, rounded to
    -- the type of the tensors, the softmax of the query's scores over the keys it may see (all of them,
    -- or those up to its own position), applied to their values; `c` is any score.
    pub launch_flash_attn_bf16_lem :
        (all_blocks : (n : ℕ) → Covers (gpu.blocks n) n)
        (all_loaders : (by bx kb n : ℕ) → Covers (gpu.loaders by bx kb n) n)
        (all_writers : (by bx n : ℕ) → Covers (gpu.writers by bx n) n) (max_smem : ℕ)
        (accepts : Tiles → ℕ → ℕ → Bool) (batch : ℕ) (out : Out gpu ops)
        → let t = chosen max_smem cfg.br cfg.bc cfg.head_dim in
          is_compiled t.br t.bc t.head_dim ≡ true
          → accepts t ((s_q + t.br - 1) / t.br) (batch * cfg.num_q_heads) ≡ true
          → s_q % t.br ≡ 0
          → 0 < s_kv
          → ((bh i j : ℕ) → exact.IsScore (attn_score bh i j))
          → (out' : Out gpu ops) × (launch_flash_attn_bf16 gpu ops max_smem accepts q k v out batch
                s_q s_kv cfg
              ≡ some out')
            × ((bh i d : ℕ) (c : Float)
                → bh < batch * cfg.num_q_heads
                → i < s_q
                → d < cfg.head_dim
                → exact.IsScore c
                → (x : Float) × (out'.o (entry s_q bh i d) ≡ to_bf16 x)
                  × IsSoftmax (attn_score bh i) (attn_value bh d) (attn_keys i) c x)
    unfolding launch_flash_attn_bf16 dispatch_flash_attn
    launch_flash_attn_bf16_lem all_blocks all_loaders all_writers max_smem accepts batch out
          compiled accepted full some_kv in_range =
        let t = chosen max_smem cfg.br cfg.bc cfg.head_dim in
        let (some_row, some_key, some_dim, whole) =
          IsTile-whole t.br t.bc t.head_dim (is_compiled-IsTile t.br t.bc t.head_dim compiled) in
        let scale = used_scale gpu ops cfg in
        let out' = launch_fa gpu ops cfg t s_q s_kv scale q k v batch out in
        (
          out',
          ap (launch_selected gpu ops accepts q k v out batch s_q s_kv cfg)
                (select-chosen max_smem cfg.br cfg.bc cfg.head_dim compiled)
              ∙ ap (λ ok. if ok then some out' else none) accepted,
          λ bh i d c lb li ld hc.
              (let q_tile = i / t.br in
                let row = i % t.br in
                let b = block_at gpu ops cfg t s_q s_kv scale q k v q_tile bh in
                let here : q_tile * t.br + row ≡ i = grind arith in
                let in_block : q_row gpu ops b b.br ≤ s_q = last_tile t.br s_q i some_row full li in
                let scores = score_is t.br t.bc q_tile bh row i here in
                let softmax =
                  flash_attn_fwd_kernel_lem gpu ops b exact all_loaders some_dim some_row
                    (t.bc / t.br) whole some_key in_block
                    (λ x j.
                      subst exact.IsScore
                        (sym (score_is t.br t.bc q_tile bh x (q_tile * t.br + x) refl j))
                        (in_range bh (q_tile * t.br + x) j))
                    row d c (omega arith) ld some_kv hc in
                (
                  (flash_attn_fwd_kernel gpu ops b row).o d,
                  launch_fa-Right gpu ops cfg t s_q s_kv scale q k v refl some_row bh i d li ld
                      all_writers batch all_blocks lb out,
                  IsSoftmax-same (raw_score gpu ops b row) (attn_score bh i)
                      (λ j. to_float (b.v (j * cfg.head_dim + d))) (attn_value bh d)
                      (visible gpu ops b row) (attn_keys i) c _ scores
                      (value_is t.br t.bc q_tile bh row i here d)
                      (ap (λ x. if cfg.causal then min s_kv (x + 1) else s_kv) here) softmax,
                )),
        )
