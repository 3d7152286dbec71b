-- ===== src/Gemm/Backends.antt =====
-- `VendorGemm::gemm` and `batch_gemm` (src/gemm_vendor.cpp), whichever backend a build and a machine have.
use amp.Prelude.{
  ℕ, zero, suc, ◌+◌, ◌≤◌, ◌<◌, ◌≡◌, ◌≢◌, ◌⊎◌, refl, sym, ap, ◌∙◌, subst, Bool, true, false, Option,
  none, some, if◌then◌else◌, ◌==◌, ◌&&◌, arith, inl, inr, Bool-cases,
}
use amp.Matmul.{Gpu}
use amp.Gemm.Types.{
  Build, have_cublas, have_rocblas, no_vendor, no_epilogue, VendorGemm, is_fp32, to_rocblas_dtype,
  to_cuda_dtype,
}
use amp.Gemm.{
  GemmDesc, Vendors, cublas_call, fallback_gemm, rocblas_gemm_impl, cublas_gemm, gemm, batch_gemm,
}
use amp.Gemm.Fallback.{fallback_gemm-plain, fallback_gemm_past}
use amp.Gemm.Rocblas.{
  IsRocblas, IsCublas, IsProduct, rocblas_gemm_impl-IsProduct, cublas_gemm-IsProduct,
}

module _ (gpu : Gpu) (vendors : Vendors gpu) (roc : IsRocblas gpu vendors)
    (lt : IsCublas gpu vendors) (mul_comm : (x y : gpu.Float) → gpu.mul x y ≡ gpu.mul y x) where
  -- What each backend can be asked for: the fallback takes no transposed matrix and FP32 only, and
  -- cuBLASLt is taken without scales here.
  abbrev pub FallbackTakes : GemmDesc gpu → Type 0
  FallbackTakes d =
      (is_fp32 d.dtype_a ≡ true)
      × (is_fp32 d.dtype_b ≡ true)
      × (is_fp32 d.dtype_c ≡ true)
      × (d.transa ≡ false)
      × (d.transb ≡ false)

  abbrev pub RocblasTakes : GemmDesc gpu → Type 0
  RocblasTakes d =
      ((vendors.set_stream
          && to_rocblas_dtype d.dtype_a
          && to_rocblas_dtype d.dtype_b
          && to_rocblas_dtype d.dtype_c)
        ≡ true)
      × (roc.has_types d.dtype_b d.dtype_a d.dtype_c ≡ true)

  abbrev pub CublasTakes : VendorGemm → GemmDesc gpu → Type 0
  CublasTakes g d =
      ((to_cuda_dtype vendors.fp8 d.dtype_a
          && to_cuda_dtype vendors.fp8 d.dtype_b
          && to_cuda_dtype vendors.fp8 d.dtype_c
          && vendors.describe (cublas_call gpu d g))
        ≡ true)
      × (lt.has_call (cublas_call gpu d g) ≡ true)
      × (d.d_scale_a ≡ false)
      × (d.d_scale_b ≡ false)
      × (d.d_scale_c ≡ false)

  abbrev pub Takes : Build → VendorGemm → GemmDesc gpu → Type 0
  Takes have_cublas g d = if g.vendor_available then CublasTakes g d else FallbackTakes d
  Takes have_rocblas g d = if g.vendor_available then RocblasTakes d else FallbackTakes d
  Takes no_vendor g d = FallbackTakes d

  module _ (g : VendorGemm) (d : GemmDesc gpu) (plain : d.epilogue ≡ no_epilogue)
      (a b c : ℕ → gpu.Float) where
    fallback_gemm-IsProduct : FallbackTakes d → IsProduct gpu d a b c (fallback_gemm gpu d a b c)
    unfolding fallback_gemm
    fallback_gemm-IsProduct (fp32_a, _, _, straight_a, straight_b) = (
      λ i j li lj. rw (straight_a, straight_b) (fallback_gemm-plain gpu d a b i j c fp32_a li lj),
      λ p past. fallback_gemm_past gpu d a b p c past,
    )

    -- With the vendor's library or, where it is not available, without.
    either_way :
        (Asked : Type 0) (answer : Option (ℕ → gpu.Float))
        → (Asked → (c' : ℕ → gpu.Float) × (answer ≡ some c') × IsProduct gpu d a b c c')
        → (available : Bool) → (if available then Asked else FallbackTakes d)
        → (c' : ℕ → gpu.Float) × ((if available then answer else some (fallback_gemm gpu d a b c))
            ≡ some c')
          × IsProduct gpu d a b c c'
    either_way Asked answer serve true takes = serve takes
    either_way Asked answer serve false takes =
        (fallback_gemm gpu d a b c, refl, fallback_gemm-IsProduct takes)

    -- Whatever backend serves a product without an epilogue that it takes, `gemm` returns, and C holds
    -- alpha * op(A) * op(B) + beta * C by rows; nothing past C has changed.
    pub gemm-IsProduct :
        (build : Build)
        → Takes build g d
        → (c' : ℕ → gpu.Float) × (gemm gpu d build vendors g a b c ≡ some c')
          × IsProduct gpu d a b c c'
    unfolding gemm
    gemm-IsProduct no_vendor takes =
        (fallback_gemm gpu d a b c, refl, fallback_gemm-IsProduct takes)
    gemm-IsProduct have_cublas takes =
        either_way (CublasTakes g d) (cublas_gemm gpu d vendors g a b c)
          (λ (accepted, types, scale_a, scale_b, scale_c).
            cublas_gemm-IsProduct gpu d vendors lt g a b c accepted types
              (scale_a, scale_b, scale_c) plain)
          g.vendor_available takes
    gemm-IsProduct have_rocblas takes =
        either_way (RocblasTakes d) (rocblas_gemm_impl gpu d vendors a b c)
          (λ (accepted, types).
            rocblas_gemm_impl-IsProduct gpu d mul_comm vendors roc a b c accepted types)
          g.vendor_available takes

  -- `batch_gemm`: each entry of the batch is served, and no other array changes.
  pub batch_gemm-IsProduct :
      (build : Build) (g : VendorGemm) (d : GemmDesc gpu)
      → d.epilogue ≡ no_epilogue
      → Takes build g d
      → (da db : ℕ → ℕ → gpu.Float) (turns first : ℕ) (cs : ℕ → ℕ → gpu.Float)
      → (cs' : ℕ → ℕ → gpu.Float) × (batch_gemm gpu d build vendors g da db turns first cs
          ≡ some cs')
        × ((x : ℕ) → first ≤ x → x < first + turns → IsProduct gpu d (da x) (db x) (cs x) (cs' x))
        × ((x : ℕ) → x < first ⊎ first + turns ≤ x → cs' x ≡ cs x)
  unfolding batch_gemm
  batch_gemm-IsProduct build g d plain takes da db zero first cs =
      (cs, refl, (λ x le less. absurd (omega arith)), (λ x out. refl))
  batch_gemm-IsProduct build g d plain takes da db (suc turns) first cs =
      let (c, runs, right) =
        gemm-IsProduct g d plain (da first) (db first) (cs first) build takes in
      let next : ℕ → ℕ → gpu.Float = λ x. if first == x then c else cs x in
      let (cs', rest, rights, others) =
        batch_gemm-IsProduct build g d plain takes da db turns (first + 1) next in
      let here : (first == first) ≡ true = ground arith in
      let elsewhere : (x : ℕ) → first ≢ x → next x ≡ cs x = λ x ne.
        (let apart : (first == x) ≡ false = ground arith in
          ap (λ t. if t then c else cs x) apart) in
      (
        cs',
        ap
              (λ r. elim r as (λ y. Option (ℕ → ℕ → gpu.Float)) [
                | none ↦ none
                | some c ↦
                    batch_gemm gpu d build vendors g da db turns (first + 1)
                      (λ x. if first == x then c else cs x)
              ])
              runs
            ∙ rest,
        (λ x le less. elim (Bool-cases (first == x)) [
          | inl same ↦
              let is_first : first ≡ x = ground arith in
              subst (λ y. IsProduct gpu d (da y) (db y) (cs y) (cs' y)) is_first
                (subst (IsProduct gpu d (da first) (db first) (cs first))
                  (sym
                    (others first (inl (omega arith)) ∙ ap (λ t. if t then c else cs first) here))
                  right)
          | inr later ↦
              let ne : first ≢ x = ground arith in
              subst (λ old. IsProduct gpu d (da x) (db x) old (cs' x)) (elsewhere x ne)
                (rights x (ground arith) (omega arith))
        ]),
        (λ x out. others x (ground arith) ∙ elsewhere x (ground arith)),
      )
