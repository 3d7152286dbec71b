-- ===== src/Fp8.antt =====
-- include/fp8.hpp: the conversions between `float` and the two 8-bit formats. Each finite `float` is
-- a whole multiple of 2^-149, and the code's arithmetic on it is exact, so a magnitude is that
-- multiple. The code's fractions are then quotients by powers of 2, and `std::round` is half up.
pub mod Codes
pub mod Rounding
use amp.Prelude.{
  ℕ, zero, suc, ◌+◌, ◌-◌, ◌*◌, ◌/◌, ◌%◌, ◌^◌, ◌≤◌, ◌<◌, Bool, true, false, if◌then◌else◌, ltb, leb,
  ◌==◌, ◌&&◌, ◌||◌,
}

-- A `float`; the flag is the sign bit.
pub data Float32 : Type 0 where
  nan : Float32
  inf : Bool → Float32
  fin : Bool → ℕ → Float32

-- The number of binary digits, with fuel: `frexp` gives this less 149 for the exponent.
unfoldable pub width : ℕ → ℕ → ℕ
width zero n = 0
width (suc fuel) n = elim (n == 0) [ true ↦ 0 | false ↦ 1 + width fuel (n / 2) ]

-- Magnitudes below 2^176 are the most that the code asks for.
abbrev pub digits : ℕ → ℕ
digits n = width 176 n

-- `std::round` of `n / 2^k`, for `k` above 0.
abbrev pub round_shift : ℕ → ℕ → ℕ
round_shift n k = (n + 2 ^ (k - 1)) / 2 ^ k

abbrev pub sign_bit : Bool → ℕ
sign_bit true = 0x80
sign_bit false = 0

-- `v < 0.0f`: a zero is not.
abbrev pub negative : Bool → ℕ → Bool
negative s n = s && ltb 0 n

-- `fp8::e4m3_to_f32`
unfoldable pub e4m3_to_f32 : ℕ → Float32
e4m3_to_f32 v =
    let sign = v / 128 % 2 == 1 in
    let exp = v / 8 % 16 in
    let mant = v % 8 in
    if exp == 0 && mant == 0
    then Float32.fin sign 0
    else (if exp == 15 && mant == 7
        then Float32.nan
        else (if exp == 0
            then Float32.fin sign (mant * 2 ^ 140)
            else Float32.fin sign ((8 + mant) * 2 ^ (exp + 139))))

-- The end of `f32_to_e4m3`: the carry of the mantissa, and the clamp below the NaN pattern.
abbrev pub e4m3_pack : ℕ → ℕ → ℕ → ℕ
e4m3_pack sign e m =
    let e' = if leb 8 m then e + 1 else e in
    let m' = if leb 8 m then 0 else m in
    if ltb 15 e' || (e' == 15 && leb 7 m') then sign + 0x7e else sign + (e' * 8 + m')

-- `f32_to_e4m3` on the clamped magnitude `n`, which is not 0.
unfoldable pub e4m3_magnitude : ℕ → ℕ → ℕ
e4m3_magnitude sign n =
    let w = digits n in
    let mant = round_shift n 140 in
    let e = if ltb 15 (w - 143) then 15 else w - 143 in
    let m = round_shift (n - 2 ^ (w - 1)) (w - 4) in
    if leb w 143 then sign + (if ltb 7 mant then 7 else mant) else e4m3_pack sign e m

-- `fp8::f32_to_e4m3`
unfoldable pub f32_to_e4m3 : Float32 → ℕ
unfolding e4m3_magnitude
f32_to_e4m3 Float32.nan = 0x7f
f32_to_e4m3 (Float32.inf s) = e4m3_magnitude (sign_bit s) (448 * 2 ^ 149)
f32_to_e4m3 (Float32.fin s n) =
    let sign = sign_bit (negative s n) in
    let n' = if ltb (448 * 2 ^ 149) n then 448 * 2 ^ 149 else n in
    if n' == 0 then sign else e4m3_magnitude sign n'

-- `fp8::e5m2_to_f32`
unfoldable pub e5m2_to_f32 : ℕ → Float32
e5m2_to_f32 v =
    let sign = v / 128 % 2 == 1 in
    let exp = v / 4 % 32 in
    let mant = v % 4 in
    if exp == 31
    then (if mant == 0 then Float32.inf sign else Float32.nan)
    else (if exp == 0 && mant == 0
        then Float32.fin sign 0
        else (if exp == 0
            then Float32.fin sign (mant * 2 ^ 133)
            else Float32.fin sign ((4 + mant) * 2 ^ (exp + 132))))

abbrev pub e5m2_pack : ℕ → ℕ → ℕ → ℕ
e5m2_pack sign e m =
    let e' = if leb 4 m then e + 1 else e in
    let m' = if leb 4 m then 0 else m in if leb 31 e' then sign + 0x7c else sign + (e' * 4 + m')

-- `f32_to_e5m2` on the clamped magnitude `n`, which is not 0.
unfoldable pub e5m2_magnitude : ℕ → ℕ → ℕ
e5m2_magnitude sign n =
    let w = digits n in
    let mant = round_shift n 133 in
    let m = round_shift (n - 2 ^ (w - 1)) (w - 3) in
    if leb w 135
    then sign + (if ltb 3 mant then 3 else mant)
    else (if leb 31 (w - 135) then sign + 0x7c else e5m2_pack sign (w - 135) m)

-- `fp8::f32_to_e5m2`
unfoldable pub f32_to_e5m2 : Float32 → ℕ
unfolding e5m2_magnitude
f32_to_e5m2 Float32.nan = 0x7f
f32_to_e5m2 (Float32.inf s) = sign_bit s + 0x7c
f32_to_e5m2 (Float32.fin s n) =
    let sign = sign_bit (negative s n) in
    let n' = if ltb (57344 * 2 ^ 149) n then 57344 * 2 ^ 149 else n in
    if n' == 0 then sign else e5m2_magnitude sign n'
