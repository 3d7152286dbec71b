-- ===== src/Gemm.antt =====
-- include/gemm_vendor.hpp and src/gemm_vendor.cpp: products of matrices through cuBLASLt, rocBLAS or a
-- loop on the host. The vendors' libraries are parameters. `float` and its operations are those of a
-- `Gpu` of Matmul, whose orders are not used here. An array is a function of the index that gives the
-- number an entry stands for; an exception is `none`.
pub mod Types
pub mod Fallback
pub mod Rocblas
pub mod Backends
use amp.Prelude.{
  ℕ, zero, suc, ◌+◌, ◌*◌, ◌≡◌, Bool, true, false, Option, none, some, if◌then◌else◌, ◌==◌, ◌&&◌,
}
use amp.Matmul.{Gpu, sum_loop}
use amp.Gemm.Types.{
  DataType, GemmEpilogue, no_epilogue, relu, bias, gelu, Build, have_cublas, have_rocblas,
  no_vendor, VendorGemm, to_rocblas_dtype, to_cuda_dtype, ComputeType, is_fp32, compute_type_for,
}

module _ (gpu : Gpu) where
  open gpu use {Float, f_zero, add, mul}

  -- `GemmDesc`, with its scale pointers as whether each is set.
  pub record GemmDesc : Type 0 where
    pub m : ℕ
    pub n : ℕ
    pub k : ℕ
    pub dtype_a : DataType
    pub dtype_b : DataType
    pub dtype_c : DataType
    pub alpha : Float
    pub beta : Float
    pub d_scale_a : Bool
    pub d_scale_b : Bool
    pub d_scale_c : Bool
    pub d_amax_c : Bool
    pub transa : Bool
    pub transb : Bool
    pub epilogue : GemmEpilogue
    pub d_bias : Bool

  -- The call of `rocblas_gemm_ex`: the arguments that are not the arrays.
  pub record RocblasCall : Type 0 where
    pub trans_a : Bool
    pub trans_b : Bool
    pub m : ℕ
    pub n : ℕ
    pub k : ℕ
    pub alpha : Float
    pub a_type : DataType
    pub lda : ℕ
    pub b_type : DataType
    pub ldb : ℕ
    pub beta : Float
    pub c_type : DataType
    pub ldc : ℕ

  -- `cublasLtMatrixLayout_t`, in row-major order.
  pub record Layout : Type 0 where
    pub dtype : DataType
    pub rows : ℕ
    pub cols : ℕ
    pub ld : ℕ

  -- The call of `cublasLtMatmul`: what its descriptors say.
  pub record CublasCall : Type 0 where
    pub compute : ComputeType
    pub trans_a : Bool
    pub trans_b : Bool
    pub d_scale_a : Bool
    pub d_scale_b : Bool
    pub d_scale_c : Bool
    pub d_amax_c : Bool
    pub epilogue : GemmEpilogue
    pub bias : Bool
    pub lay_a : Layout
    pub lay_b : Layout
    pub lay_c : Layout
    pub alpha : Float
    pub beta : Float
    pub workspace : Option ℕ
    pub workspace_size : ℕ

  -- The vendors' libraries: a product takes A, B and C in the order of the call and gives C; `none` is
  -- a status of failure. `describe` is whether the descriptors of a call can be made.
  pub record Vendors : Type 0 where
    pub fp8 : Bool
    pub set_stream : Bool
    pub gemm_ex : RocblasCall → (ℕ → Float) → (ℕ → Float) → (ℕ → Float) → Option (ℕ → Float)
    pub describe : CublasCall → Bool
    pub lt_matmul : CublasCall → (ℕ → Float) → (ℕ → Float) → (ℕ → Float) → Option (ℕ → Float)

  module _ (d : GemmDesc) where
    module _ (a b : ℕ → Float) where
      -- The body of the loops of `fallback_gemm`.
      abbrev pub fallback_cell : ℕ → ℕ → (ℕ → Float) → ℕ → Float
      fallback_cell i j c p =
          if i * d.n + j == p
          then add
              (mul d.alpha
                (sum_loop gpu (λ k. mul (a (i * d.k + k)) (b (k * d.n + j))) d.k 0 f_zero))
              (mul d.beta (c (i * d.n + j)))
          else c p

      -- `for (j = from; n turns; ++j)`
      unfoldable pub col_loop : ℕ → ℕ → ℕ → (ℕ → Float) → ℕ → Float
      unfolding sum_loop
      col_loop i zero j c = c
      col_loop i (suc turns) j c = col_loop i turns (j + 1) (fallback_cell i j c)

      -- `for (i = from; n turns; ++i)`
      unfoldable pub row_loop : ℕ → ℕ → (ℕ → Float) → ℕ → Float
      unfolding col_loop
      row_loop zero i c = c
      row_loop (suc turns) i c = row_loop turns (i + 1) (col_loop i d.n 0 c)

      unfoldable pub fallback_gemm : (ℕ → Float) → ℕ → Float
      unfolding row_loop
      fallback_gemm c = if is_fp32 d.dtype_a then row_loop d.m 0 c else c

    -- The arguments of the call in `rocblas_gemm_impl`: A and B, M and N change places.
    abbrev pub rocblas_call : RocblasCall
    rocblas_call = record {
      trans_a = d.transb;
      trans_b = d.transa;
      m = d.n;
      n = d.m;
      k = d.k;
      alpha = d.alpha;
      a_type = d.dtype_b;
      lda = if d.transb then d.k else d.n;
      b_type = d.dtype_a;
      ldb = if d.transa then d.m else d.k;
      beta = d.beta;
      c_type = d.dtype_c;
      ldc = d.n;
    }

    unfoldable pub rocblas_gemm_impl :
        Vendors → (ℕ → Float) → (ℕ → Float) → (ℕ → Float) → Option (ℕ → Float)
    rocblas_gemm_impl vendors a b c =
        if vendors.set_stream
          && to_rocblas_dtype d.dtype_a
          && to_rocblas_dtype d.dtype_b
          && to_rocblas_dtype d.dtype_c
        then vendors.gemm_ex rocblas_call b a c
        else none

    -- The descriptors of `cublas_gemm`.
    abbrev pub is_bias : GemmEpilogue → Bool
    is_bias no_epilogue = false
    is_bias relu = false
    is_bias bias = true
    is_bias gelu = false

    abbrev pub cublas_call : VendorGemm → CublasCall
    cublas_call g = record {
      compute = compute_type_for d.dtype_a d.dtype_c;
      trans_a = d.transa;
      trans_b = d.transb;
      d_scale_a = d.d_scale_a;
      d_scale_b = d.d_scale_b;
      d_scale_c = d.d_scale_c;
      d_amax_c = d.d_amax_c;
      epilogue = d.epilogue;
      bias = is_bias d.epilogue && d.d_bias;
      lay_a = record {
        dtype = d.dtype_a;
        rows = if d.transa then d.k else d.m;
        cols = if d.transa then d.m else d.k;
        ld = if d.transa then d.m else d.k;
      };
      lay_b = record {
        dtype = d.dtype_b;
        rows = if d.transb then d.n else d.k;
        cols = if d.transb then d.k else d.n;
        ld = if d.transb then d.k else d.n;
      };
      lay_c = record { dtype = d.dtype_c; rows = d.m; cols = d.n; ld = d.n };
      alpha = d.alpha;
      beta = d.beta;
      workspace = g.workspace;
      workspace_size = g.workspace_size;
    }

    unfoldable pub cublas_gemm :
        Vendors → VendorGemm → (ℕ → Float) → (ℕ → Float) → (ℕ → Float) → Option (ℕ → Float)
    cublas_gemm vendors g a b c =
        if to_cuda_dtype vendors.fp8 d.dtype_a
          && to_cuda_dtype vendors.fp8 d.dtype_b
          && to_cuda_dtype vendors.fp8 d.dtype_c
          && vendors.describe (cublas_call g)
        then vendors.lt_matmul (cublas_call g) a b c
        else none

    -- `VendorGemm::gemm`
    unfoldable pub gemm :
        Build → Vendors → VendorGemm → (ℕ → Float) → (ℕ → Float) → (ℕ → Float) → Option (ℕ → Float)
    unfolding fallback_gemm rocblas_gemm_impl cublas_gemm
    gemm have_cublas vendors g a b c =
        if g.vendor_available then cublas_gemm vendors g a b c else some (fallback_gemm a b c)
    gemm have_rocblas vendors g a b c =
        if g.vendor_available then rocblas_gemm_impl vendors a b c else some (fallback_gemm a b c)
    gemm no_vendor vendors g a b c = some (fallback_gemm a b c)

    -- `batch_gemm`, from the entry `b` on, with `turns` to go, on arrays that do not overlap.
    unfoldable pub batch_gemm :
        Build
        → Vendors
        → VendorGemm
        → (ℕ → ℕ → Float)
        → (ℕ → ℕ → Float)
        → ℕ
        → ℕ
        → (ℕ → ℕ → Float)
        → Option (ℕ → ℕ → Float)
    unfolding gemm
    batch_gemm build vendors g da db zero b cs = some cs
    batch_gemm build vendors g da db (suc turns) b cs =
        elim (gemm build vendors g (da b) (db b) (cs b)) [
          | none ↦ none
          | some c ↦
              batch_gemm build vendors g da db turns (b + 1) (λ x. if b == x then c else cs x)
        ]
