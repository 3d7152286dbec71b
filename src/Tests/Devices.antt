-- ===== src/Tests/Devices.antt =====
-- `detect_device` and `detect_caps` (src/device.cpp) on two devices.
use amp.Prelude.{◌≡◌, refl, false, some}
use Prim.Native.String.{compare}
use text.Mathlib.Text.{is_eq}
use amp.Device.{MatrixUnit, hip_unit, CudaProp, HipProp, detect_caps_hip}

abbrev h100 : CudaProp
h100 = record {
  name = "NVIDIA H100";
  warp_size = 32;
  multi_processor_count = 132;
  total_global_mem = 85899345920;
  major = 9;
  minor = 0;
  shared_mem_per_multiprocessor = 233472;
}

-- An MI100: of the names, only gfx908.
abbrev mi100 : HipProp
mi100 = record {
  name = "AMD Instinct MI100";
  warp_size = 64;
  multi_processor_count = 120;
  total_global_mem = 34359738368;
  shared_mem_per_block = 65536;
  finds = λ s. is_eq (compare s "gfx908");
}

-- Its unit computes in BF16, and the capability is not set.
mi100_disagrees :
    (hip_unit mi100 ≡ MatrixUnit.mfma_bf16) × ((detect_caps_hip (some mi100) 4).has_bf16 ≡ false)
unfolding detect_caps_hip
mi100_disagrees = (refl, refl)
