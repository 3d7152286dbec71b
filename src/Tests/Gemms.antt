-- ===== src/Tests/Gemms.antt =====
-- src/gemm_vendor.cpp over natural numbers, with libraries that do what is documented.
use amp.Prelude.{
  ℕ, ◌+◌, ◌*◌, ◌/◌, ◌%◌, ◌≤◌, ◌<◌, ◌≡◌, refl, ap, ◌∙◌, true, false, some, none, if◌then◌else◌, ltb,
  ◌&&◌, arith,
}
use native.Mathlib.Nat.{mul_comm}
use amp.Matmul.{sum_loop}
use amp.Matmul.Blocks.{div_pair, mod_pair}
use amp.Tests.Matmuls.{device, left, right}
use amp.Gemm.Types.{
  have_rocblas, no_vendor, fp32, bf16, fp8e4m3, no_epilogue, VendorGemm, new, backend_name, rocblas,
  fallback,
}
use amp.Gemm.{GemmDesc, RocblasCall, CublasCall, Vendors, gemm, fallback_gemm, rocblas_gemm_impl}
use amp.Gemm.Rocblas.{IsRocblas, IsCublas, IsProduct, by_rows, product}
use amp.Gemm.Backends.{gemm-IsProduct}

-- A product that is set by rows `ld` apart.
abbrev set_rows : ℕ → ℕ → ℕ → (ℕ → ℕ → ℕ → ℕ) → (ℕ → ℕ) → ℕ → ℕ
set_rows rows cols ld cell c p =
    if ltb (p / ld) rows && ltb (p % ld) cols then cell (p / ld) (p % ld) (c p) else c p

set_rows_at :
    (rows cols ld : ℕ) (cell : ℕ → ℕ → ℕ → ℕ) (c : ℕ → ℕ) (i j : ℕ)
    → cols ≤ ld
    → i < rows
    → j < cols
    → set_rows rows cols ld cell c (i * ld + j) ≡ cell i j (c (i * ld + j))
set_rows_at rows cols ld cell c i j wide li lj =
    let p = i * ld + j in
    let row : p / ld ≡ i = div_pair ld i j (omega arith) in
    let col : p % ld ≡ j = mod_pair ld i j (omega arith) in
    let inside : (ltb (p / ld) rows && ltb (p % ld) cols) ≡ true = ground (arith, row, col) in
    ap (λ t. if t then cell (p / ld) (p % ld) (c p) else c p) inside
    ∙ ap (λ x. cell x (p % ld) (c p)) row
    ∙ ap (λ x. cell i x (c p)) col

not_below : (rows ld p : ℕ) → rows * ld ≤ p → 0 < ld → rows ≤ p / ld
not_below rows ld p past pos = grind arith

set_rows_past :
    (rows cols ld : ℕ) (cell : ℕ → ℕ → ℕ → ℕ) (c : ℕ → ℕ) (p : ℕ)
    → cols ≤ ld
    → rows * ld ≤ p
    → set_rows rows cols ld cell c p ≡ c p
set_rows_past rows cols ld cell c p wide past =
    let outside : (ltb (p / ld) rows && ltb (p % ld) cols) ≡ false =
      grind (arith, not_below rows ld p past) in
    ap (λ t. if t then cell (p / ld) (p % ld) (c p) else c p) outside

abbrev roc_cell : RocblasCall device → (ℕ → ℕ) → (ℕ → ℕ) → ℕ → ℕ → ℕ → ℕ
roc_cell x a b j i old =
    x.alpha
      * product device (λ r l. by_rows device x.trans_a x.lda a l r)
          (λ l r. by_rows device x.trans_b x.ldb b r l) x.k i j
    + x.beta * old

abbrev lt_cell : CublasCall device → ℕ → (ℕ → ℕ) → (ℕ → ℕ) → ℕ → ℕ → ℕ → ℕ
lt_cell x k a b i j old =
    x.alpha
      * product device (by_rows device x.trans_a x.lay_a.ld a)
          (by_rows device x.trans_b x.lay_b.ld b) k i j
    + x.beta * old

abbrev vendors : Vendors device
vendors = record {
  fp8 = true;
  set_stream = true;
  gemm_ex = λ x a b c. some (set_rows x.n x.m x.ldc (roc_cell x a b) c);
  describe = λ x. true;
  lt_matmul = λ x a b c. some (
      set_rows x.lay_c.rows x.lay_c.cols x.lay_c.ld
        (lt_cell x (if x.trans_a then x.lay_a.rows else x.lay_a.cols) a b) c);
}

abbrev vendors-IsRocblas : IsRocblas device vendors
vendors-IsRocblas = record {
  has_types = λ x y z. true;
  gemm_ex-sets = λ x a b c types lda ldb ldc. (
    set_rows x.n x.m x.ldc (roc_cell x a b) c,
    refl,
    (λ i j li lj. set_rows_at x.n x.m x.ldc (roc_cell x a b) c j i ldc lj li),
    (λ p past. set_rows_past x.n x.m x.ldc (roc_cell x a b) c p ldc past),
  );
}

abbrev vendors-IsCublas : IsCublas device vendors
vendors-IsCublas = record {
  has_call = λ x. true;
  lt_matmul-sets = λ x k a b c has scales plain (sa, inner, sb, sc) (fa, fb, fc).
      (let depth : ℕ = if x.trans_a then x.lay_a.rows else x.lay_a.cols in
        (
          set_rows x.lay_c.rows x.lay_c.cols x.lay_c.ld (lt_cell x depth a b) c,
          refl,
          (λ i j li lj.
              set_rows_at x.lay_c.rows x.lay_c.cols x.lay_c.ld (lt_cell x depth a b) c i j fc li lj
              ∙ ap (λ y. lt_cell x y a b i j (c (i * x.lay_c.ld + j))) inner),
          (λ p past.
              set_rows_past x.lay_c.rows x.lay_c.cols x.lay_c.ld (lt_cell x depth a b) c p fc past),
        ));
}

-- 2 * A * B + C, where A is a 2 by 3 matrix and B, a 3 by 2 one, lies transposed.
abbrev desc : GemmDesc device
desc = record {
  m = 2;
  n = 2;
  k = 3;
  dtype_a = bf16;
  dtype_b = bf16;
  dtype_c = fp32;
  alpha = 2;
  beta = 1;
  d_scale_a = false;
  d_scale_b = false;
  d_scale_c = false;
  d_amax_c = false;
  transa = false;
  transb = true;
  epilogue = no_epilogue;
  d_bias = false;
}

abbrev on_amd : VendorGemm
on_amd = new have_rocblas true none

gemm-IsProduct_example :
    (c' : ℕ → ℕ) × (gemm device desc have_rocblas vendors on_amd left right (λ p. p) ≡ some c')
    × IsProduct device desc left right (λ p. p) c'
unfolding new
gemm-IsProduct_example =
    gemm-IsProduct device vendors vendors-IsRocblas vendors-IsCublas (λ x y. mul_comm x y) on_amd
      desc refl left right (λ p. p) have_rocblas (refl, refl)

-- Entry (0, 1) of the product is 1 * 10 + 2 * 11 + 3 * 12, and C held 1 there.
rocblas_runs :
    (c' : ℕ → ℕ) × (rocblas_gemm_impl device desc vendors left right (λ p. p) ≡ some c')
    × (c' 1 ≡ 137)
unfolding rocblas_gemm_impl sum_loop
rocblas_runs = (_, refl, refl)

-- Without a vendor's library a product of BF16 is skipped, and C keeps what it held; 8-bit floats are
-- refused by the call of rocBLAS.
skipped_runs :
    (gemm device desc no_vendor vendors on_amd left right (λ p. 7) ≡ some (λ p. 7))
    × (gemm device
          (record desc { dtype_a = fp8e4m3 })
          have_rocblas
          vendors
          on_amd
          left
          right
          (λ p. 7)
        ≡ none)
    × (backend_name no_vendor on_amd ≡ fallback)
    × (backend_name have_rocblas on_amd ≡ rocblas)
unfolding gemm fallback_gemm rocblas_gemm_impl backend_name new
skipped_runs = (refl, refl, refl, refl)
