-- ===== src/Flash/Output.antt =====
-- The output arrays of kernels/flash_attn.cu after a launch.
use amp.Prelude.{
  ℕ, zero, suc, ◌+◌, ◌-◌, ◌*◌, ◌/◌, ◌%◌, ◌≤◌, ◌<◌, ◌≡◌, sym, ap, ◌∙◌, subst, true, if◌then◌else◌,
  ltb, ◌==◌, arith, inl, inr, Bool-cases,
}
use amp.Matmul.{Gpu, in_order}
use amp.Matmul.Orders.{Covers, in_order_lem, in_order_only}
use amp.Matmul.Blocks.{div_pair, mod_pair, pair_lt, same_pair, div_ceil}
use amp.Flash.{FlashOps, flash_attn_fwd_kernel}
use amp.Flash.Dispatch.{Tiles}
use amp.Flash.Launch.{AttnCfg, Out, write_loop, q_base, block_at, write_row, launch_fa}

module _ (gpu : Gpu) (ops : FlashOps gpu) where
  open gpu use {Float}
  open ops use {Bf16, to_bf16}

  write_loop_keeps :
      (start : ℕ) (o_i : ℕ → Float) (n d : ℕ) (o : ℕ → Bf16) (i : ℕ) (x : Bf16)
      → ((e : ℕ) → e < d + n → start + e ≡ i → to_bf16 (o_i e) ≡ x)
      → o i ≡ x
      → write_loop gpu ops start o_i n d o i ≡ x
  unfolding write_loop
  write_loop_keeps start o_i zero d o i x same h = h
  write_loop_keeps start o_i (suc n) d o i x same h =
      write_loop_keeps start o_i n (d + 1) _ i x (λ e less. same e (omega arith))
        (elim (Bool-cases (start + d == i)) [
          | inl here ↦
              ap (λ t. if t then to_bf16 (o_i d) else o i) here
              ∙ same d (omega arith) (ground arith)
          | inr other ↦ ap (λ t. if t then to_bf16 (o_i d) else o i) other ∙ h
        ])

  write_loop_sets :
      (start : ℕ) (o_i : ℕ → Float) (n d : ℕ) (o : ℕ → Bf16) (e : ℕ)
      → d ≤ e
      → e < d + n
      → write_loop gpu ops start o_i n d o (start + e) ≡ to_bf16 (o_i e)
  unfolding write_loop
  write_loop_sets start o_i zero d o e le less = absurd (omega arith)
  write_loop_sets start o_i (suc n) d o e le less = elim (Bool-cases (d == e)) [
    | inr later ↦ write_loop_sets start o_i n (d + 1) _ e (ground arith) (omega arith)
    | inl here ↦
        let is_d : d ≡ e = ground arith in
        let at_ : (start + d == start + e) ≡ true = ground arith in
        write_loop_keeps start o_i n (d + 1) _ (start + e) (to_bf16 (o_i e))
          (λ u lu same. ap (λ y. to_bf16 (o_i y)) (omega arith))
          (ap (λ t. if t then to_bf16 (o_i d) else o (start + e)) at_
            ∙ ap (λ y. to_bf16 (o_i y)) is_d)
  ]

pub base_is :
    (bh h_q s_q dim : ℕ) → bh / h_q * (h_q * s_q * dim) + bh % h_q * (s_q * dim) ≡ bh * s_q * dim
base_is bh h_q s_q dim =
    let back : bh / h_q * h_q + bh % h_q ≡ bh = grind arith in
    let ring : bh / h_q * (h_q * s_q * dim) + bh % h_q * (s_q * dim)
        ≡ (bh / h_q * h_q + bh % h_q) * s_q * dim =
      grind arith in
    ring ∙ ap (λ x. x * s_q * dim) back

module _ (gpu : Gpu) (ops : FlashOps gpu) (cfg : AttnCfg gpu ops) (t : Tiles) (s_q s_kv : ℕ)
    (scale : gpu.Float) (q k v : ℕ → ops.Bf16) (same_dim : t.head_dim ≡ cfg.head_dim)
    (some_row : 0 < t.br) where
  -- What the row `row` of a block computes for the dimension `d`.
  abbrev computed : ℕ → ℕ → ℕ → ℕ → ops.Bf16
  computed q_tile bh row d = ops.to_bf16 (
      (flash_attn_fwd_kernel gpu ops (block_at gpu ops cfg t s_q s_kv scale q k v q_tile bh) row).o
        d)

  module _ (bh i d : ℕ) (li : i < s_q) (ld : d < t.head_dim) where
    abbrev Right : Out gpu ops → Type 0
    Right out = out.o ((bh * s_q + i) * cfg.head_dim + d) ≡ computed (i / t.br) bh (i % t.br) d

    -- A cell of the output has one warp that writes it.
    same_cell :
        (q_tile bh' row e : ℕ)
        → row < t.br
        → q_tile * t.br + row < s_q
        → e < 0 + t.head_dim
        → q_base gpu ops cfg t s_q s_kv scale q k v bh' + (q_tile * t.br + row) * cfg.head_dim + e
          ≡ (bh * s_q + i) * cfg.head_dim + d
        → computed q_tile bh' row e ≡ computed (i / t.br) bh (i % t.br) d
    same_cell q_tile bh' row e lr la le at_ =
        let place : (bh' * s_q + (q_tile * t.br + row)) * cfg.head_dim + e
            ≡ (bh * s_q + i) * cfg.head_dim + d =
          grind (arith, sym (base_is bh' cfg.num_q_heads s_q cfg.head_dim), at_) in
        let (rows, dims) =
          same_pair cfg.head_dim (bh' * s_q + (q_tile * t.br + row)) e (bh * s_q + i) d
            (omega (arith, sym same_dim)) (omega (arith, sym same_dim)) place in
        let (heads, queries) = same_pair s_q bh' (q_tile * t.br + row) bh i la li rows in
        let tile_is : q_tile ≡ i / t.br =
          sym (div_pair t.br q_tile row lr) ∙ ap (λ x. x / t.br) queries in
        let row_is : row ≡ i % t.br =
          sym (mod_pair t.br q_tile row lr) ∙ ap (λ x. x % t.br) queries in
        ap (λ x. computed x bh' row e) tile_is
        ∙ ap (λ x. computed (i / t.br) x row e) heads
        ∙ ap (λ x. computed (i / t.br) bh x e) row_is
        ∙ ap (computed (i / t.br) bh (i % t.br)) dims

    write_row_keeps :
        (q_tile bh' row : ℕ) (out : Out gpu ops)
        → row < t.br
        → Right out
        → Right (write_row gpu ops cfg t s_q s_kv scale q k v q_tile bh' row out)
    unfolding write_row
    write_row_keeps q_tile bh' row out lr h =
        let at_ = q_tile * t.br + row in
        let r =
          flash_attn_fwd_kernel gpu ops (block_at gpu ops cfg t s_q s_kv scale q k v q_tile bh')
            row in
        let start = q_base gpu ops cfg t s_q s_kv scale q k v bh' + at_ * cfg.head_dim in
        let cell = (bh * s_q + i) * cfg.head_dim + d in
        elim (Bool-cases (ltb at_ s_q)) [
          | inr past ↦ rw past h
          | inl inside ↦ rw inside (
              write_loop_keeps gpu ops start r.o t.head_dim 0 out.o cell
                (computed (i / t.br) bh (i % t.br) d)
                (λ e le same. same_cell q_tile bh' row e lr (ground arith) le same) h)
        ]

    write_row_sets :
        (out : Out gpu ops)
        → Right (write_row gpu ops cfg t s_q s_kv scale q k v (i / t.br) bh (i % t.br) out)
    unfolding write_row
    write_row_sets out =
        let at_ = i / t.br * t.br + i % t.br in
        let back : at_ ≡ i = grind arith in
        let inside : ltb at_ s_q ≡ true = ground arith in
        let r =
          flash_attn_fwd_kernel gpu ops (block_at gpu ops cfg t s_q s_kv scale q k v (i / t.br) bh)
            (i % t.br) in
        let start = q_base gpu ops cfg t s_q s_kv scale q k v bh + at_ * cfg.head_dim in
        let place : (bh * s_q + i) * cfg.head_dim + d ≡ start + d =
          grind (arith, base_is bh cfg.num_q_heads s_q cfg.head_dim, back) in
        rw (inside, place)
          (write_loop_sets gpu ops start r.o t.head_dim 0 out.o d (omega arith) (omega arith))

    module _ (all_writers : (by bx n : ℕ) → Covers (gpu.writers by bx n) n) where
      block_keeps :
          (q_tile bh' : ℕ) (out : Out gpu ops)
          → Right out
          → Right (
              in_order
                (write_row gpu ops cfg t s_q s_kv scale q k v q_tile bh')
                (gpu.writers q_tile bh' t.br)
                out)
      block_keeps q_tile bh' =
          in_order_only (write_row gpu ops cfg t s_q s_kv scale q k v q_tile bh') Right
            (gpu.writers q_tile bh' t.br) t.br (all_writers q_tile bh' t.br)
            (λ row lr out. write_row_keeps q_tile bh' row out lr)

      block_sets :
          (out : Out gpu ops)
          → Right (
              in_order
                (write_row gpu ops cfg t s_q s_kv scale q k v (i / t.br) bh)
                (gpu.writers (i / t.br) bh t.br)
                out)
      block_sets =
          in_order_lem (write_row gpu ops cfg t s_q s_kv scale q k v (i / t.br) bh) Right
            (gpu.writers (i / t.br) bh t.br) t.br (i % t.br) (all_writers (i / t.br) bh t.br)
            (omega arith) (λ row lr out. write_row_keeps (i / t.br) bh row out lr) write_row_sets

      pub launch_fa-Right :
          (batch : ℕ) (all_blocks : (n : ℕ) → Covers (gpu.blocks n) n)
          → bh < batch * cfg.num_q_heads
          → (out : Out gpu ops) → Right (launch_fa gpu ops cfg t s_q s_kv scale q k v batch out)
      unfolding launch_fa
      launch_fa-Right batch all_blocks lb =
          let tr = (s_q + t.br - 1) / t.br in
          let heads = batch * cfg.num_q_heads in
          let lt_ : i / t.br < tr = div_ceil t.br s_q i some_row li in
          let task = bh * tr + i / t.br in
          let head : task / tr ≡ bh = div_pair tr bh (i / t.br) lt_ in
          let tile : task % tr ≡ i / t.br = mod_pair tr bh (i / t.br) lt_ in
          let run = λ (q_tile bh' : ℕ) (out : Out gpu ops).
            in_order (write_row gpu ops cfg t s_q s_kv scale q k v q_tile bh')
              (gpu.writers q_tile bh' t.br) out in
          in_order_lem (λ n. run (n % tr) (n / tr)) Right (gpu.blocks (heads * tr)) (heads * tr)
            task (all_blocks (heads * tr)) (pair_lt tr heads bh (i / t.br) lb lt_)
            (λ n ln out. block_keeps (n % tr) (n / tr) out)
            (λ out.
              subst (λ x. Right (run x (task / tr) out)) (sym tile)
                (subst (λ y. Right (run (i / t.br) y out)) (sym head) (block_sets out)))
