-- ===== src/Flash/Loads.antt =====
-- The loads and scores of a block of kernels/flash_attn.cu whose warps are all in the loop.
use amp.Prelude.{
  ℕ, ◌+◌, ◌*◌, ◌/◌, ◌≤◌, ◌<◌, ◌≡◌, refl, sym, ap, ◌∙◌, Bool, true, List, [], ◌∷◌, if◌then◌else◌,
  ltb, leb, ◌&&◌, ◌||◌, min, has, arith, inl, inr, Bool-cases,
}
use amp.Matmul.{Gpu, sum_loop, load_tile}
use amp.Matmul.Orders.{Covers}
use amp.Matmul.Tiles.{load_tile_lem}
use amp.Matmul.Sums.{sum_loop-shift}
use amp.Flash.{FlashOps, Block, keep_if, q_row, is_live, load_kv, load_q, tile_score}

keep_if_all :
    (test : ℕ → Bool) (ts : List ℕ)
    → ((t : ℕ) → has t ts ≡ true → test t ≡ true)
    → keep_if test ts ≡ ts
keep_if_all test [] all = refl
keep_if_all test (t ∷ ts) all =
    let here : test t ≡ true = all t (ground arith) in
    rw here (ap (λ xs. t ∷ xs) (keep_if_all test ts (λ u later. all u (ground (arith, later)))))

module _ (gpu : Gpu) (ops : FlashOps gpu) (b : Block gpu ops) where
  open gpu use {Float, f_zero, mul}
  open ops use {neg_big, to_float}

  -- The score of the key `j` for a row, and the same with the mark where the row may not see the key.
  abbrev pub raw_score : ℕ → ℕ → Float
  raw_score row j =
      mul
        (sum_loop gpu
          (λ d.
            mul (to_float (b.q (q_row gpu ops b row * b.head_dim + d)))
              (to_float (b.k (j * b.head_dim + d))))
          b.head_dim 0 f_zero)
        b.scale

  abbrev pub is_masked : ℕ → ℕ → Bool
  is_masked row j = leb b.s_kv j || (b.causal && ltb (q_row gpu ops b row) j)

  abbrev pub score : ℕ → ℕ → Float
  score row j = if is_masked row j then neg_big else raw_score row j

  abbrev pub value : ℕ → ℕ → Float
  value j d = if ltb j b.s_kv then to_float (b.v (j * b.head_dim + d)) else f_zero

  -- How many keys the row may see.
  abbrev pub visible : ℕ → ℕ
  visible row = if b.causal then min b.s_kv (q_row gpu ops b row + 1) else b.s_kv

  module _ (all_loaders : (by bx kb n : ℕ) → Covers (gpu.loaders by bx kb n) n)
      (some_dim : 0 < b.head_dim) (some_row : 0 < b.br) (full : q_row gpu ops b b.br ≤ b.s_q)
      (kv_start : ℕ)
      (all_live : (row : ℕ) → row < b.br → is_live gpu ops b kv_start row ≡ true) where
    pub load_kv_lem :
        (x : ℕ → ops.Bf16) (tile : ℕ → ℕ → Float) (j d : ℕ)
        → j < b.bc
        → d < b.head_dim
        → load_kv gpu ops b x kv_start tile j d ≡ (
            if ltb (kv_start + j) b.s_kv
            then to_float (x ((kv_start + j) * b.head_dim + d))
            else f_zero)
    unfolding load_kv
    load_kv_lem x tile j d lj ld =
        let threads = b.br * 32 in
        let order = gpu.loaders b.q_tile b.bh kv_start threads in
        let covers = all_loaders b.q_tile b.bh kv_start threads in
        let src = λ (r : ℕ) (d : ℕ).
          if ltb (kv_start + r) b.s_kv
          then to_float (x ((kv_start + r) * b.head_dim + d))
          else f_zero in
        let whole =
          keep_if_all (λ tid. is_live gpu ops b kv_start (tid / 32)) order
            (λ t here.
              all_live (t / 32)
                (let less : t < threads = ground (arith, covers t) in omega (arith, less))) in
        ap (λ o. load_tile gpu src b.head_dim (b.bc * b.head_dim) threads o tile j d) whole
        ∙ load_tile_lem gpu src b.head_dim (b.bc * b.head_dim) threads j d order tile covers
            (omega arith) ld (grind arith)

  module _ (all_loaders : (by bx kb n : ℕ) → Covers (gpu.loaders by bx kb n) n) where
    load_q_lem :
        (row d : ℕ)
        → d < b.head_dim
        → load_q gpu ops b row d ≡ to_float (b.q (q_row gpu ops b row * b.head_dim + d))
    unfolding load_q
    load_q_lem row d ld =
        let src = λ (r : ℕ) (d : ℕ). to_float (b.q (q_row gpu ops b row * b.head_dim + d)) in
        load_tile_lem gpu src b.head_dim b.head_dim 32 0 d (gpu.loaders b.q_tile b.bh row 32)
          (gpu.garbage b.q_tile b.bh) (all_loaders b.q_tile b.bh row 32) (omega arith) ld
          (omega arith)

    pub tile_score_lem :
        (sk : ℕ → ℕ → Float) (kv_start row j : ℕ)
        → ((d : ℕ)
            → d < b.head_dim
            → sk j d ≡ (
                if ltb (kv_start + j) b.s_kv
                then to_float (b.k ((kv_start + j) * b.head_dim + d))
                else f_zero))
        → tile_score gpu ops b sk kv_start row j ≡ score row (kv_start + j)
    unfolding tile_score
    tile_score_lem sk kv_start row j loaded =
        let sum =
          mul (sum_loop gpu (λ d. mul (load_q gpu ops b row d) (sk j d)) b.head_dim 0 f_zero)
            b.scale in
        let raw = raw_score row (kv_start + j) in
        elim (Bool-cases (is_masked row (kv_start + j))) [
          | inl masked ↦
              ap (λ t. if t then neg_big else sum) masked
              ∙ sym (ap (λ t. if t then neg_big else raw) masked)
          | inr seen ↦
              let inside : ltb (kv_start + j) b.s_kv ≡ true = ground arith in
              let key = λ (d : ℕ). to_float (b.k ((kv_start + j) * b.head_dim + d)) in
              let query = λ (d : ℕ). to_float (b.q (q_row gpu ops b row * b.head_dim + d)) in
              let terms : (d : ℕ)
                  → d < 0 + b.head_dim
                  → mul (load_q gpu ops b row d) (sk j d) ≡ mul (query (0 + d)) (key (0 + d)) =
                λ d less.
                  (let ld : d < b.head_dim = omega (arith, less) in
                    let same : d ≡ 0 + d = omega arith in
                    ap (λ x. mul x (sk j d)) (load_q_lem row d ld)
                    ∙ ap (mul (query d))
                        (loaded d ld ∙ ap (λ t. if t then key d else f_zero) inside)
                    ∙ ap (λ x. mul (query x) (key x)) same) in
              ap (λ t. if t then neg_big else sum) seen
              ∙ ap (λ x. mul x b.scale)
                  (sum_loop-shift gpu (λ d. mul (load_q gpu ops b row d) (sk j d))
                    (λ d. mul (query d) (key d)) 0 b.head_dim 0 f_zero terms)
              ∙ sym (ap (λ t. if t then neg_big else raw) seen)
        ]
