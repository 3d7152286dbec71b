-- ===== src/Gemm/Fallback.antt =====
-- The loops of `VendorGemm::fallback_gemm` (src/gemm_vendor.cpp): each cell is set once, from what C held
-- before.
use amp.Prelude.{
  ℕ, zero, suc, ◌+◌, ◌*◌, ◌≤◌, ◌<◌, ◌≡◌, ◌≢◌, refl, sym, ap, ◌∙◌, true, if◌then◌else◌, ◌==◌, arith,
  inl, inr, Bool-cases,
}
use amp.Matmul.{Gpu, sum_loop}
use amp.Matmul.Blocks.{same_pair, pair_lt}
use amp.Gemm.Types.{is_fp32}
use amp.Gemm.{GemmDesc, fallback_cell, col_loop, row_loop, fallback_gemm}

module _ (gpu : Gpu) (d : GemmDesc gpu) (a b : ℕ → gpu.Float) where
  -- What the cell `(i, j)` becomes, given what it held.
  abbrev pub plain_cell : ℕ → ℕ → gpu.Float → gpu.Float
  plain_cell i j old =
      gpu.add
        (gpu.mul d.alpha
          (sum_loop gpu (λ k. gpu.mul (a (i * d.k + k)) (b (k * d.n + j))) d.k 0 gpu.f_zero))
        (gpu.mul d.beta old)

  fallback_cell_other :
      (i j p : ℕ) (c : ℕ → gpu.Float) → i * d.n + j ≢ p → fallback_cell gpu d a b i j c p ≡ c p
  fallback_cell_other i j p c ne = elim (Bool-cases (i * d.n + j == p)) [
    | inl here ↦ absurd (ne (ground arith))
    | inr other ↦ ap (λ t. if t then plain_cell i j (c (i * d.n + j)) else c p) other
  ]

  fallback_cell_same :
      (i j : ℕ) (c : ℕ → gpu.Float)
      → fallback_cell gpu d a b i j c (i * d.n + j) ≡ plain_cell i j (c (i * d.n + j))
  fallback_cell_same i j c =
      let here : (i * d.n + j == i * d.n + j) ≡ true = ground arith in
      ap (λ t. if t then plain_cell i j (c (i * d.n + j)) else c (i * d.n + j)) here

  col_loop_other :
      (i turns j p : ℕ) (c : ℕ → gpu.Float)
      → ((e : ℕ) → j ≤ e → e < j + turns → i * d.n + e ≢ p)
      → col_loop gpu d a b i turns j c p ≡ c p
  unfolding col_loop
  col_loop_other i zero j p c apart = refl
  col_loop_other i (suc turns) j p c apart =
      col_loop_other i turns (j + 1) p (fallback_cell gpu d a b i j c)
        (λ e le less. apart e (omega arith) (omega arith))
      ∙ fallback_cell_other i j p c (apart j (omega arith) (omega arith))

  col_loop_at :
      (i turns j e : ℕ) (c : ℕ → gpu.Float)
      → j ≤ e
      → e < j + turns
      → col_loop gpu d a b i turns j c (i * d.n + e) ≡ plain_cell i e (c (i * d.n + e))
  unfolding col_loop
  col_loop_at i zero j e c le less = absurd (omega arith)
  col_loop_at i (suc turns) j e c le less = elim (Bool-cases (j == e)) [
    | inl here ↦
        let is_j : j ≡ e = ground arith in
        ap (λ x. col_loop gpu d a b i turns (j + 1) (fallback_cell gpu d a b i j c) (i * d.n + x))
          (sym is_j)
        ∙ col_loop_other i turns (j + 1) (i * d.n + j) (fallback_cell gpu d a b i j c)
            (λ u lu _ same. absurd (omega (arith, same)))
        ∙ fallback_cell_same i j c
        ∙ ap (λ x. plain_cell i x (c (i * d.n + x))) is_j
    | inr later ↦
        let ne : j ≢ e = ground arith in
        col_loop_at i turns (j + 1) e (fallback_cell gpu d a b i j c) (ground arith) (omega arith)
        ∙ ap (plain_cell i e)
            (fallback_cell_other i j (i * d.n + e) c (λ same. ne (omega (arith, same))))
  ]

  row_loop_other :
      (turns i p : ℕ) (c : ℕ → gpu.Float)
      → ((u e : ℕ) → i ≤ u → u < i + turns → e < d.n → u * d.n + e ≢ p)
      → row_loop gpu d a b turns i c p ≡ c p
  unfolding row_loop
  row_loop_other zero i p c apart = refl
  row_loop_other (suc turns) i p c apart =
      row_loop_other turns (i + 1) p (col_loop gpu d a b i d.n 0 c)
        (λ u e le less. apart u e (omega arith) (omega arith))
      ∙ col_loop_other i d.n 0 p c
          (λ e le less. apart i e (omega arith) (omega arith) (omega arith))

  row_loop_at :
      (turns i u e : ℕ) (c : ℕ → gpu.Float)
      → i ≤ u
      → u < i + turns
      → e < d.n
      → row_loop gpu d a b turns i c (u * d.n + e) ≡ plain_cell u e (c (u * d.n + e))
  unfolding row_loop
  row_loop_at zero i u e c le less col = absurd (omega arith)
  row_loop_at (suc turns) i u e c le less col = elim (Bool-cases (i == u)) [
    | inl here ↦
        let is_i : i ≡ u = ground arith in
        ap (λ x. row_loop gpu d a b turns (i + 1) (col_loop gpu d a b i d.n 0 c) (x * d.n + e))
          (sym is_i)
        ∙ row_loop_other turns (i + 1) (i * d.n + e) (col_loop gpu d a b i d.n 0 c)
            (λ v f lv _ lf same. absurd (omega (arith, (same_pair d.n v f i e lf col same).0)))
        ∙ col_loop_at i d.n 0 e c (omega arith) (omega arith)
        ∙ ap (λ x. plain_cell x e (c (x * d.n + e))) is_i
    | inr later ↦
        let ne : i ≢ u = ground arith in
        row_loop_at turns (i + 1) u e (col_loop gpu d a b i d.n 0 c) (ground arith) (omega arith)
          col
        ∙ ap (plain_cell u e) (
            col_loop_other i d.n 0 (u * d.n + e) c
              (λ f _ lf same. ne (same_pair d.n i f u e (omega arith) col same).0))
  ]

  -- On an FP32 A, `fallback_gemm` sets each cell to alpha times the product, as it is without
  -- transposition, plus beta times what the cell held.
  pub fallback_gemm-plain :
      (i j : ℕ) (c : ℕ → gpu.Float)
      → is_fp32 d.dtype_a ≡ true
      → i < d.m
      → j < d.n
      → fallback_gemm gpu d a b c (i * d.n + j) ≡ plain_cell i j (c (i * d.n + j))
  unfolding fallback_gemm
  fallback_gemm-plain i j c single li lj =
      rw single (row_loop_at d.m 0 i j c (omega arith) (omega arith) lj)

  pub fallback_gemm_past :
      (p : ℕ) (c : ℕ → gpu.Float) → d.m * d.n ≤ p → fallback_gemm gpu d a b c p ≡ c p
  unfolding fallback_gemm
  fallback_gemm_past p c past = elim (Bool-cases (is_fp32 d.dtype_a)) [
    | inr other ↦ ap (λ t. (if t then row_loop gpu d a b d.m 0 c else c) p) other
    | inl single ↦
        ap (λ t. (if t then row_loop gpu d a b d.m 0 c else c) p) single
        ∙ row_loop_other d.m 0 p c (λ u e _ less le same.
          absurd (omega (arith, pair_lt d.n d.m u e (omega (arith, less)) le, same)))
  ]
