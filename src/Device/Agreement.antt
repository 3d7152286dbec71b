-- ===== src/Device/Agreement.antt =====
-- `detect_device` and `detect_caps` (src/device.cpp) on one device.
use amp.Prelude.{
  ℕ, ◌+◌, ◌*◌, ◌/◌, ◌%◌, ◌≤◌, ◌<◌, ◌≡◌, refl, Bool, true, false, some, if◌then◌else◌, ◌&&◌, ◌||◌,
  arith,
}
use amp.Device.{
  MatrixUnit, DeviceInfo, CudaProp, HipProp, is_mi300, detect_device_cuda, detect_device_hip,
  detect_caps_cuda, detect_caps_hip, cuda_version, hip_version,
}

-- Whether a unit computes in FP8, and in BF16, by its name.
abbrev pub unit_fp8 : MatrixUnit → Bool
unit_fp8 MatrixUnit.tensor_core_fp8 = true
unit_fp8 MatrixUnit.mfma_fp8 = true
unit_fp8 _ = false

abbrev pub unit_bf16 : MatrixUnit → Bool
unit_bf16 MatrixUnit.tensor_core_bf16 = true
unit_bf16 MatrixUnit.mfma_bf16 = true
unit_bf16 u = unit_fp8 u

-- On CUDA the two functions agree on each device: the unit computes in FP8, or in BF16, exactly where
-- the capability is set. Capabilities grow with the generation: FP8 brings BF16, this FP16 and INT8,
-- and flash attention needs BF16 and 80 KB.
pub cuda_agrees :
    (p : CudaProp) (count : ℕ)
    → (i : DeviceInfo) × (detect_device_cuda (some p) ≡ some i)
      × (let c = detect_caps_cuda (some p) count in
          (unit_fp8 i.matrix_unit ≡ c.has_fp8)
          × (unit_bf16 i.matrix_unit ≡ c.has_bf16)
          × (c.has_fp8 ≡ true → c.has_bf16 ≡ true)
          × (c.has_bf16 ≡ true → (c.has_fp16 ≡ true) × (c.has_int8 ≡ true))
          × (c.has_flash_attn ≡ true → (c.has_bf16 ≡ true) × (80 ≤ c.shared_mem_kb)))
unfolding detect_device_cuda detect_caps_cuda
cuda_agrees p count = (
  _,
  refl,
  (
    ground arith,
    ground arith,
    (λ h. ground arith),
    (λ h. (ground arith, ground arith)),
    (λ h. (ground arith, ground arith)),
  ),
)

-- On HIP they agree on FP8. On BF16 they agree but for one device: where `gcnArchName` has gfx908 and
-- no other of the names, the unit is said to compute in BF16 and the capability is not set.
pub hip_agrees_unless_gfx908 :
    (p : HipProp) (count : ℕ)
    → (i : DeviceInfo) × (detect_device_hip (some p) ≡ some i)
      × (let c = detect_caps_hip (some p) count in
          let only_gfx908 =
            p.finds "gfx908" && (if p.finds "gfx90a" || is_mi300 p then false else true) in
          (unit_fp8 i.matrix_unit ≡ c.has_fp8)
          × (unit_bf16 i.matrix_unit ≡ c.has_bf16 || only_gfx908)
          × (only_gfx908 ≡ true → c.has_bf16 ≡ false))
unfolding detect_device_hip detect_caps_hip
hip_agrees_unless_gfx908 p count = (_, refl, (ground arith, ground arith, (λ h. ground arith)))

-- The version that is printed is the one that the runtime's number was made of, for CUDA
-- (1000 * major + 10 * minor) and for HIP (10000000 * major + 100000 * minor + patch).
pub versions_roundtrip :
    (major minor patch : ℕ)
    → minor < 100
    → patch < 100000
    → (cuda_version (1000 * major + 10 * minor) ≡ (major, minor))
      × (hip_version (10000000 * major + 100000 * minor + patch) ≡ (major, minor))
unfolding cuda_version hip_version
versions_roundtrip major minor patch hm hp =
    let cuda_major : (1000 * major + 10 * minor) / 1000 ≡ major = omega arith in
    let cuda_minor : (1000 * major + 10 * minor) % 1000 / 10 ≡ minor = omega arith in
    let ver = 10000000 * major + 100000 * minor + patch in
    let hip_major : ver / 10000000 ≡ major = omega arith in
    let hip_minor : ver / 100000 % 100 ≡ minor = omega arith in (cc, cc)
