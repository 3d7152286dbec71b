-- ===== src/Device.antt =====
-- src/device.cpp, with the types of include/portable.hpp: what the program reads off the answers of
-- the vendors' runtimes. The build chooses one backend; an answer is `none` where the call fails or
-- throws. For HIP `finds` tells whether `gcnArchName` contains a name, as `find` does.
pub mod Agreement
use amp.Prelude.{
  ℕ, zero, suc, ◌+◌, ◌*◌, ◌/◌, ◌%◌, Bool, true, false, Option, none, some, if◌then◌else◌, ltb, leb,
  ◌==◌, ◌&&◌, ◌||◌,
}
use Prim.Native.String.{String}

-- The values of `DeviceInfo::matrix_unit`.
pub data MatrixUnit : Type 0 where
  no_unit tensor_core tensor_core_bf16 tensor_core_fp8 mfma_bf16 mfma_fp8 xmx : MatrixUnit

-- `struct DeviceInfo`
pub record DeviceInfo : Type 0 where
  pub vendor : String
  pub name : String
  pub simd_width : ℕ
  pub compute_units : ℕ
  pub global_mem : ℕ
  pub matrix_unit : MatrixUnit
  pub sm_major : ℕ
  pub sm_minor : ℕ

-- `struct DeviceCaps`
pub record DeviceCaps : Type 0 where
  pub has_bf16 : Bool
  pub has_fp8 : Bool
  pub has_fp16 : Bool
  pub has_int8 : Bool
  pub has_flash_attn : Bool
  pub shared_mem_kb : ℕ
  pub n_devices : ℕ

abbrev pub no_caps : DeviceCaps
no_caps = record {
  has_bf16 = false;
  has_fp8 = false;
  has_fp16 = false;
  has_int8 = false;
  has_flash_attn = false;
  shared_mem_kb = 0;
  n_devices = 1;
}

-- The fields that the code reads of `cudaDeviceProp`.
pub record CudaProp : Type 0 where
  pub name : String
  pub warp_size : ℕ
  pub multi_processor_count : ℕ
  pub total_global_mem : ℕ
  pub major : ℕ
  pub minor : ℕ
  pub shared_mem_per_multiprocessor : ℕ

-- The fields that the code reads of `hipDeviceProp_t`.
pub record HipProp : Type 0 where
  pub name : String
  pub warp_size : ℕ
  pub multi_processor_count : ℕ
  pub total_global_mem : ℕ
  pub shared_mem_per_block : ℕ
  pub finds : String → Bool

-- What the code asks of a SYCL device.
pub record SyclDevice : Type 0 where
  pub name : String
  pub last_sub_group_size : ℕ
  pub max_compute_units : ℕ
  pub global_mem_size : ℕ
  pub local_mem_size : ℕ
  pub has_intel_matrix : Bool

-- `p.major > 8 || (p.major == 8 && p.minor >= 9)`
abbrev pub sm_89 : CudaProp → Bool
sm_89 p = ltb 8 p.major || (p.major == 8 && leb 9 p.minor)

abbrev pub cuda_unit : CudaProp → MatrixUnit
cuda_unit p =
    if sm_89 p
    then MatrixUnit.tensor_core_fp8
    else (if leb 8 p.major
        then MatrixUnit.tensor_core_bf16
        else (if leb 7 p.major then MatrixUnit.tensor_core else MatrixUnit.no_unit))

-- `arch.find` of one of the names of an MI300X.
abbrev pub is_mi300 : HipProp → Bool
is_mi300 p = p.finds "gfx940" || p.finds "gfx941" || p.finds "gfx942"

abbrev pub hip_unit : HipProp → MatrixUnit
hip_unit p =
    if is_mi300 p
    then MatrixUnit.mfma_fp8
    else (if p.finds "gfx90a" || p.finds "gfx908" then MatrixUnit.mfma_bf16 else MatrixUnit.no_unit)

-- `detect_device`, for each backend; `none` is the exception of AMP_CHECK.
unfoldable pub detect_device_cuda : Option CudaProp → Option DeviceInfo
detect_device_cuda none = none
detect_device_cuda (some p) = some (record {
  vendor = "nvidia";
  name = p.name;
  simd_width = p.warp_size;
  compute_units = p.multi_processor_count;
  global_mem = p.total_global_mem;
  matrix_unit = cuda_unit p;
  sm_major = p.major;
  sm_minor = p.minor;
})

unfoldable pub detect_device_hip : Option HipProp → Option DeviceInfo
detect_device_hip none = none
detect_device_hip (some p) = some (record {
  vendor = "amd";
  name = p.name;
  simd_width = p.warp_size;
  compute_units = p.multi_processor_count;
  global_mem = p.total_global_mem;
  matrix_unit = hip_unit p;
  sm_major = 0;
  sm_minor = 0;
})

unfoldable pub detect_device_sycl : Option SyclDevice → DeviceInfo
detect_device_sycl none = record {
  vendor = "intel";
  name = "unknown";
  simd_width = 0;
  compute_units = 0;
  global_mem = 0;
  matrix_unit = MatrixUnit.no_unit;
  sm_major = 0;
  sm_minor = 0;
}
detect_device_sycl (some d) = record {
  vendor = "intel";
  name = d.name;
  simd_width = d.last_sub_group_size;
  compute_units = d.max_compute_units;
  global_mem = d.global_mem_size;
  matrix_unit = if d.has_intel_matrix then MatrixUnit.xmx else MatrixUnit.no_unit;
  sm_major = 0;
  sm_minor = 0;
}

unfoldable pub detect_device_cpu : ℕ → DeviceInfo
detect_device_cpu hardware_concurrency = record {
  vendor = "cpu";
  name = "cpu";
  simd_width = 1;
  compute_units = hardware_concurrency;
  global_mem = 0;
  matrix_unit = MatrixUnit.no_unit;
  sm_major = 0;
  sm_minor = 0;
}

-- `detect_caps`, for each backend; `count` is the runtime's number of devices.
unfoldable pub detect_caps_cuda : Option CudaProp → ℕ → DeviceCaps
detect_caps_cuda none count = no_caps
detect_caps_cuda (some p) count = record {
  has_fp16 = leb 6 p.major;
  has_bf16 = leb 8 p.major;
  has_int8 = (leb 6 p.major && leb 1 p.minor) || leb 7 p.major;
  has_fp8 = sm_89 p;
  has_flash_attn = leb 8 p.major && leb (80 * 1024) p.shared_mem_per_multiprocessor;
  shared_mem_kb = p.shared_mem_per_multiprocessor / 1024;
  n_devices = count;
}

unfoldable pub detect_caps_hip : Option HipProp → ℕ → DeviceCaps
detect_caps_hip none count = no_caps
detect_caps_hip (some p) count =
    let has_bf16 = p.finds "gfx90a" || is_mi300 p in
    record {
      has_fp16 = true;
      has_bf16 = has_bf16;
      has_fp8 = is_mi300 p;
      has_int8 = has_bf16;
      has_flash_attn = has_bf16;
      shared_mem_kb = p.shared_mem_per_block / 1024;
      n_devices = count;
    }

unfoldable pub detect_caps_sycl : Option SyclDevice → DeviceCaps
detect_caps_sycl none = no_caps
detect_caps_sycl (some d) = record {
  has_bf16 = d.has_intel_matrix;
  has_fp16 = true;
  has_int8 = d.has_intel_matrix;
  has_fp8 = false;
  has_flash_attn = d.has_intel_matrix;
  shared_mem_kb = d.local_mem_size / 1024;
  n_devices = 1;
}

abbrev pub detect_caps_cpu : DeviceCaps
detect_caps_cpu = no_caps

-- `device_count`
abbrev pub device_count : ℕ → ℕ
device_count n = if ltb 0 n then n else 1

-- The major and minor numbers that `detect_runtime` prints, for CUDA and for HIP.
unfoldable pub cuda_version : ℕ → ℕ × ℕ
cuda_version ver = (ver / 1000, ver % 1000 / 10)

unfoldable pub hip_version : ℕ → ℕ × ℕ
hip_version ver = (ver / 10000000, ver / 100000 % 100)
