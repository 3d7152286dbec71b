-- ===== src/Gemm/Types.antt =====
-- The types of include/gemm_vendor.hpp, and what src/gemm_vendor.cpp makes of them: the constructor, the
-- name of the backend, and the vendors' types.
use amp.Prelude.{ℕ, ◌*◌, Bool, true, false, Option, none, some, if◌then◌else◌}

-- `DataType` (include/portable.hpp)
pub data DataType : Type 0 where
  fp32 bf16 fp16 fp8e4m3 fp8e5m2 int8 int4 int32 : DataType

pub data GemmEpilogue : Type 0 where
  no_epilogue relu bias gelu : GemmEpilogue

-- What the library is built with.
pub data Build : Type 0 where
  have_cublas have_rocblas no_vendor : Build

-- `VendorGemm`: its workspace is an address with a size.
pub record VendorGemm : Type 0 where
  pub vendor_available : Bool
  pub workspace : Option ℕ
  pub workspace_size : ℕ

-- The constructor: `created` is whether the vendor's handle was created, and `allocated` what
-- `cudaMalloc` gave.
unfoldable pub new : Build → Bool → Option ℕ → VendorGemm
new have_cublas false allocated = record {
  vendor_available = false;
  workspace = none;
  workspace_size = 0;
}
new have_cublas true none = record { vendor_available = true; workspace = none; workspace_size = 0 }
new have_cublas true (some ptr) = record {
  vendor_available = true;
  workspace = some ptr;
  workspace_size = 32 * 1024 * 1024;
}
new have_rocblas created allocated = record {
  vendor_available = created;
  workspace = none;
  workspace_size = 0;
}
new no_vendor created allocated = record {
  vendor_available = false;
  workspace = none;
  workspace_size = 0;
}

unfoldable pub set_workspace : Option ℕ → ℕ → VendorGemm → VendorGemm
set_workspace ptr bytes g = record {
  vendor_available = g.vendor_available;
  workspace = ptr;
  workspace_size = bytes;
}

pub data Backend : Type 0 where
  cublas_lt rocblas fallback : Backend

-- `backend_name`
unfoldable pub backend_name : Build → VendorGemm → Backend
backend_name have_cublas g = if g.vendor_available then cublas_lt else fallback
backend_name have_rocblas g = if g.vendor_available then rocblas else fallback
backend_name no_vendor g = fallback

-- `to_rocblas_dtype`: whether the type has a rocBLAS type; it throws for the others.
abbrev pub to_rocblas_dtype : DataType → Bool
to_rocblas_dtype fp32 = true
to_rocblas_dtype bf16 = true
to_rocblas_dtype fp16 = true
to_rocblas_dtype fp8e4m3 = false
to_rocblas_dtype fp8e5m2 = false
to_rocblas_dtype int8 = true
to_rocblas_dtype int4 = false
to_rocblas_dtype int32 = true

-- `to_cuda_dtype`, in a build with the 8-bit floats or without.
abbrev pub to_cuda_dtype : Bool → DataType → Bool
to_cuda_dtype fp8 fp32 = true
to_cuda_dtype fp8 bf16 = true
to_cuda_dtype fp8 fp16 = true
to_cuda_dtype fp8 fp8e4m3 = fp8
to_cuda_dtype fp8 fp8e5m2 = fp8
to_cuda_dtype fp8 int8 = true
to_cuda_dtype fp8 int4 = false
to_cuda_dtype fp8 int32 = true

pub data ComputeType : Type 0 where
  compute_32f compute_16f compute_32i : ComputeType

abbrev pub is_fp32 : DataType → Bool
is_fp32 fp32 = true
is_fp32 _ = false

abbrev pub compute_type_for : DataType → DataType → ComputeType
compute_type_for a fp32 = compute_32f
compute_type_for fp16 fp16 = compute_16f
compute_type_for int8 c = compute_32i
compute_type_for a c = compute_32f
