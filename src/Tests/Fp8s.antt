-- ===== src/Tests/Fp8s.antt =====
-- The 8-bit formats of include/fp8.hpp on a few values.
use amp.Prelude.{◌-◌, ◌*◌, ◌^◌, ◌<◌, ◌≡◌, refl, true, false, arith}
use amp.Fp8.{Float32, e4m3_to_f32, f32_to_e4m3, e5m2_to_f32, f32_to_e5m2, width}
use amp.Fp8.Codes.{roundtrip}
use amp.Fp8.Rounding.{Near, f32_to_e4m3-Near, subnormal_top}

-- 1.0, -448.0 and a value above the range.
codes :
    (f32_to_e4m3 (Float32.fin false (2 ^ 149)) ≡ 0x38)
    × (f32_to_e4m3 (Float32.fin true (448 * 2 ^ 149)) ≡ 0xfe)
    × (f32_to_e4m3 (Float32.fin false (500 * 2 ^ 149)) ≡ 0x7e)
unfolding f32_to_e4m3 width
codes = (refl, refl, refl)

roundtrip_example :
    (f32_to_e4m3 (e4m3_to_f32 0xb7) ≡ 0xb7) × (f32_to_e5m2 (e5m2_to_f32 0xb7) ≡ 0xb7)
roundtrip_example = roundtrip 0xb7 (omega arith)

f32_to_e4m3-Near_example :
    Near (3 * 2 ^ 148 - 1) (f32_to_e4m3 (Float32.fin false (3 * 2 ^ 148 - 1)))
f32_to_e4m3-Near_example = f32_to_e4m3-Near (3 * 2 ^ 148 - 1) (omega arith) (omega arith)

subnormal_top_example :
    (f32_to_e4m3 (Float32.fin false (31 * 2 ^ 138)) ≡ 7)
    × (e4m3_to_f32 7 ≡ Float32.fin false (7 * 2 ^ 140))
    × (e4m3_to_f32 8 ≡ Float32.fin false (2 ^ 143))
    × (2 ^ 143 - 31 * 2 ^ 138 < 31 * 2 ^ 138 - 7 * 2 ^ 140)
subnormal_top_example = subnormal_top (31 * 2 ^ 138) (omega arith) (omega arith)
