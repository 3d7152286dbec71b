-- ===== src/Gemm/Rocblas.antt =====
-- The calls of the vendors' products in src/gemm_vendor.cpp, under what their documentation says:
-- rocBLAS takes matrices by columns, so that the call changes the places of A and B; cuBLASLt is told
-- that they lie by rows. A sum is taken from the first product on: the libraries' own order is not
-- documented, so that this is about exact arithmetic.
use amp.Prelude.{
  ℕ, ◌+◌, ◌*◌, ◌≤◌, ◌<◌, ◌≡◌, refl, ap, ◌∙◌, Bool, true, false, none, some, if◌then◌else◌, ◌&&◌,
  arith,
}
use amp.Matmul.{Gpu, sum_loop}
use amp.Matmul.Sums.{sum_loop-same}
use amp.Gemm.Types.{DataType, no_epilogue, VendorGemm, to_rocblas_dtype, to_cuda_dtype}
use amp.Gemm.{
  GemmDesc, RocblasCall, CublasCall, Vendors, rocblas_call, cublas_call, rocblas_gemm_impl,
  cublas_gemm,
}

-- A layout that is given by the transposition is the one that the transposition reads.
flipped : (t : Bool) (u v : ℕ) → (if t then if t then u else v else (if t then v else u)) ≡ u
flipped true u v = refl
flipped false u v = refl

module _ (gpu : Gpu) where
  open gpu use {Float, f_zero, add, mul}

  -- An entry of `op(X)`, where X lies by rows `ld` apart.
  abbrev pub by_rows : Bool → ℕ → (ℕ → Float) → ℕ → ℕ → Float
  by_rows trans ld x r c = if trans then x (c * ld + r) else x (r * ld + c)

  abbrev pub product : (ℕ → ℕ → Float) → (ℕ → ℕ → Float) → ℕ → ℕ → ℕ → Float
  product a b k i j = sum_loop gpu (λ l. mul (a i l) (b l j)) k 0 f_zero

  -- `rocblas_gemm_ex` succeeds on types that it supports and leading dimensions that are large enough;
  -- it sets the `m` by `n` entries of C, which lie by columns `ldc` apart, and nothing past them.
  pub record IsRocblas (vendors : Vendors gpu) : Type 1 where
    pub has_types : DataType → DataType → DataType → Bool
    pub gemm_ex-sets :
        (x : RocblasCall gpu) (a b c : ℕ → Float)
        → has_types x.a_type x.b_type x.c_type ≡ true
        → (if x.trans_a then x.k else x.m) ≤ x.lda
        → (if x.trans_b then x.n else x.k) ≤ x.ldb
        → x.m ≤ x.ldc
        → (c' : ℕ → Float) × (vendors.gemm_ex x a b c ≡ some c')
          × ((i j : ℕ)
              → i < x.m
              → j < x.n
              → c' (j * x.ldc + i)
                ≡ add
                    (mul x.alpha (
                      product
                        (λ r l. by_rows x.trans_a x.lda a l r)
                        (λ l r. by_rows x.trans_b x.ldb b r l)
                        x.k
                        i
                        j))
                    (mul x.beta (c (j * x.ldc + i))))
          × ((p : ℕ) → x.n * x.ldc ≤ p → c' p ≡ c p)

  -- `cublasLtMatmul`, without scales and epilogue and on shapes that agree, sets the entries of C, which
  -- lie by rows `ld` apart, and nothing past them.
  pub record IsCublas (vendors : Vendors gpu) : Type 1 where
    pub has_call : CublasCall gpu → Bool
    pub lt_matmul-sets :
        (x : CublasCall gpu) (k : ℕ) (a b c : ℕ → Float)
        → has_call x ≡ true
        → (x.d_scale_a ≡ false) × (x.d_scale_b ≡ false) × (x.d_scale_c ≡ false)
        → x.epilogue ≡ no_epilogue
        → ((if x.trans_a then x.lay_a.cols else x.lay_a.rows) ≡ x.lay_c.rows)
          × ((if x.trans_a then x.lay_a.rows else x.lay_a.cols) ≡ k)
          × ((if x.trans_b then x.lay_b.cols else x.lay_b.rows) ≡ k)
          × ((if x.trans_b then x.lay_b.rows else x.lay_b.cols) ≡ x.lay_c.cols)
        → (x.lay_a.cols ≤ x.lay_a.ld) × (x.lay_b.cols ≤ x.lay_b.ld) × (x.lay_c.cols ≤ x.lay_c.ld)
        → (c' : ℕ → Float) × (vendors.lt_matmul x a b c ≡ some c')
          × ((i j : ℕ)
              → i < x.lay_c.rows
              → j < x.lay_c.cols
              → c' (i * x.lay_c.ld + j)
                ≡ add
                    (mul x.alpha (
                      product
                        (by_rows x.trans_a x.lay_a.ld a)
                        (by_rows x.trans_b x.lay_b.ld b)
                        k
                        i
                        j))
                    (mul x.beta (c (i * x.lay_c.ld + j))))
          × ((p : ℕ) → x.lay_c.rows * x.lay_c.ld ≤ p → c' p ≡ c p)

  module _ (d : GemmDesc gpu) where
    -- The cell `(i, j)` of alpha * op(A) * op(B) + beta * C, where all three lie by rows without gaps.
    abbrev pub gemm_cell : (ℕ → Float) → (ℕ → Float) → ℕ → ℕ → Float → Float
    gemm_cell a b i j old =
        add
          (mul d.alpha (
            product (by_rows d.transa (if d.transa then d.m else d.k) a)
              (by_rows d.transb (if d.transb then d.k else d.n) b) d.k i j))
          (mul d.beta old)

    -- `c'` is what the product makes of `c`.
    abbrev pub IsProduct : (ℕ → Float) → (ℕ → Float) → (ℕ → Float) → (ℕ → Float) → Type 0
    IsProduct a b c c' =
        ((i j : ℕ) → i < d.m → j < d.n → c' (i * d.n + j) ≡ gemm_cell a b i j (c (i * d.n + j)))
        × ((p : ℕ) → d.m * d.n ≤ p → c' p ≡ c p)

    pub rocblas_gemm_impl-IsProduct :
        (mul_comm : (x y : Float) → mul x y ≡ mul y x) (vendors : Vendors gpu)
        (ok : IsRocblas vendors) (a b c : ℕ → Float)
        → (vendors.set_stream
            && to_rocblas_dtype d.dtype_a
            && to_rocblas_dtype d.dtype_b
            && to_rocblas_dtype d.dtype_c)
          ≡ true
        → ok.has_types d.dtype_b d.dtype_a d.dtype_c ≡ true
        → (c' : ℕ → Float) × (rocblas_gemm_impl gpu d vendors a b c ≡ some c') × IsProduct a b c c'
    unfolding rocblas_gemm_impl
    rocblas_gemm_impl-IsProduct mul_comm vendors ok a b c accepted types =
        let lda : ℕ = if d.transb then d.k else d.n in
        let ldb : ℕ = if d.transa then d.m else d.k in
        let swapped = λ (i j : ℕ).
          sum_loop-same gpu (λ l. mul (by_rows d.transb lda b l j) (by_rows d.transa ldb a i l))
            (λ l. mul (by_rows d.transa ldb a i l) (by_rows d.transb lda b l j)) d.k 0 f_zero
            (λ l. mul_comm (by_rows d.transb lda b l j) (by_rows d.transa ldb a i l)) in
        let (c', runs, cells, past) =
          ok.gemm_ex-sets (rocblas_call gpu d) b a c types (omega arith) (omega arith)
            (omega arith) in
        (
          c',
          ap (λ t. if t then vendors.gemm_ex (rocblas_call gpu d) b a c else none) accepted ∙ runs,
          (
            λ i j li lj.
                cells j i lj li
                ∙ ap (λ s. add (mul d.alpha s) (mul d.beta (c (i * d.n + j)))) (swapped i j),
            past,
          ),
        )

    pub cublas_gemm-IsProduct :
        (vendors : Vendors gpu) (ok : IsCublas vendors) (g : VendorGemm) (a b c : ℕ → Float)
        → (to_cuda_dtype vendors.fp8 d.dtype_a
            && to_cuda_dtype vendors.fp8 d.dtype_b
            && to_cuda_dtype vendors.fp8 d.dtype_c
            && vendors.describe (cublas_call gpu d g))
          ≡ true
        → ok.has_call (cublas_call gpu d g) ≡ true
        → (d.d_scale_a ≡ false) × (d.d_scale_b ≡ false) × (d.d_scale_c ≡ false)
        → d.epilogue ≡ no_epilogue
        → (c' : ℕ → Float) × (cublas_gemm gpu d vendors g a b c ≡ some c') × IsProduct a b c c'
    unfolding cublas_gemm
    cublas_gemm-IsProduct vendors ok g a b c accepted types scales plain =
        let (c', runs, cells, past) =
          ok.lt_matmul-sets (cublas_call gpu d g) d.k a b c types scales plain
            (
              flipped d.transa d.m d.k,
              flipped d.transa d.k d.m,
              flipped d.transb d.k d.n,
              flipped d.transb d.n d.k,
            )
            (omega arith, omega arith, omega arith) in
        (
          c',
          ap (λ t. if t then vendors.lt_matmul (cublas_call gpu d g) a b c else none) accepted
              ∙ runs,
          (cells, past),
        )
