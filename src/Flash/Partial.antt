-- ===== src/Flash/Partial.antt =====
-- A block of kernels/flash_attn.cu with fewer rows than warps: the warps without a row return before the
-- loads, in which the other threads still step by the size of the whole block.
use amp.Prelude.{
  ℕ, zero, suc, ◌+◌, ◌*◌, ◌/◌, ◌%◌, ◌≤◌, ◌<◌, ◌≡◌, ◌≢◌, refl, sym, ap, ◌∙◌, Bool, true, false, List,
  [], ◌∷◌, if◌then◌else◌, ltb, ◌==◌, ◌&&◌, has, arith, inl, inr, Bool-cases, ==_iff,
}
use native.Mathlib.Nat.{add-mod_right, mod-eq_of_lt}
use amp.Matmul.{Gpu, load_loop, load_tile}
use amp.Matmul.Orders.{in_order_keeps}
use amp.Flash.{FlashOps, Block, keep_if, q_row, is_live, load_kv}

keep_if_passes :
    (test : ℕ → Bool) (ts : List ℕ) (t : ℕ) → has t (keep_if test ts) ≡ true → test t ≡ true
keep_if_passes test [] t here = absurd (ground arith)
keep_if_passes test (u ∷ us) t here = elim (Bool-cases (test u)) [
  | inr out ↦
      keep_if_passes test us t
        (sym (ap (λ b. has t (if b then u ∷ keep_if test us else keep_if test us)) out) ∙ here)
  | inl in_ ↦
      let more : has t (u ∷ keep_if test us) ≡ true =
        sym (ap (λ b. has t (if b then u ∷ keep_if test us else keep_if test us)) in_) ∙ here in
      elim (Bool-cases (u == t)) [
        | inl same ↦ let is_t : u ≡ t = (==_iff u t).0 same in sym (ap test is_t) ∙ in_
        | inr other ↦ keep_if_passes test us t (ground (arith, more))
      ]
]

module _ (gpu : Gpu) (src : ℕ → ℕ → gpu.Float) (width size stride : ℕ) (r c : ℕ)
    (inside : c < width) where
  load_loop_skips :
      (fuel idx : ℕ) (tile : ℕ → ℕ → gpu.Float)
      → idx % stride ≢ (r * width + c) % stride
      → load_loop gpu src width size stride fuel idx tile r c ≡ tile r c
  unfolding load_loop
  load_loop_skips zero idx tile ne = refl
  load_loop_skips (suc fuel) idx tile ne = elim (Bool-cases (ltb idx size)) [
    | inr end ↦ rw (end, load_loop) refl
    | inl go ↦
        let rem : (idx + stride) % stride ≡ idx % stride = add-mod_right idx stride in
        let back : (idx / width) * width + idx % width ≡ idx = grind arith in
        let elsewhere : (idx / width == r && idx % width == c) ≡ false =
          elim (Bool-cases (idx / width == r && idx % width == c)) [
            | inr no_ ↦ no_
            | inl yes_ ↦
                let row : idx / width ≡ r = ground arith in
                let col : idx % width ≡ c = ground arith in
                let same : idx ≡ r * width + c =
                  sym back ∙ ap (λ x. x * width + idx % width) row ∙ ap (λ x. r * width + x) col in
                absurd (ne (ap (λ x. x % stride) same))
          ] in
        rw (go, load_loop)
          (load_loop_skips fuel (idx + stride) _ (λ e. ne (sym rem ∙ e))
            ∙ ap (λ b. if b then src (idx / width) (idx % width) else tile r c) elsewhere)
  ]

module _ (gpu : Gpu) (ops : FlashOps gpu) (b : Block gpu ops) where
  -- Where the rows of a block from `rows` on lie past the end of the queries, the cells of a tile that
  -- fall to their warps are not loaded: they keep what shared memory held before.
  pub load_kv_partial :
      (x : ℕ → ops.Bf16) (kv_start rows j d : ℕ) (tile : ℕ → ℕ → gpu.Float)
      → 0 < b.br
      → b.s_q ≤ q_row gpu ops b rows
      → d < b.head_dim
      → rows * 32 ≤ (j * b.head_dim + d) % (b.br * 32)
      → load_kv gpu ops b x kv_start tile j d ≡ tile j d
  unfolding load_kv load_tile
  load_kv_partial x kv_start rows j d tile some_row past ld theirs =
      let stride = b.br * 32 in
      let cell = j * b.head_dim + d in
      let size = b.bc * b.head_dim in
      let src = λ (r d : ℕ).
        if ltb (kv_start + r) b.s_kv
        then ops.to_float (x ((kv_start + r) * b.head_dim + d))
        else gpu.f_zero in
      let test = λ (tid : ℕ). is_live gpu ops b kv_start (tid / 32) in
      let order = gpu.loaders b.q_tile b.bh kv_start stride in
      let small : cell % stride < stride = omega arith in
      in_order_keeps (λ tid t. load_loop gpu src b.head_dim size stride size tid t)
        (λ t. t j d ≡ tile j d) (keep_if test order)
        (λ tid here t same.
          (let live : test tid ≡ true = keep_if_passes test order tid here in
            let row : q_row gpu ops b (tid / 32) < b.s_q = ground arith in
            let below : tid < rows * 32 = omega arith in
            let alone : tid % stride ≡ tid = mod-eq_of_lt (omega arith) in
            load_loop_skips gpu src b.head_dim size stride j d ld size tid t
              (λ e. absurd (omega (arith, sym alone ∙ e)))
            ∙ same))
        tile refl
