-- ===== src/Fp8/Codes.antt =====
-- The 256 codes of each format of include/fp8.hpp, there and back, and the codes that come out.
use amp.Prelude.{
  ℕ, zero, suc, ◌+◌, ◌-◌, ◌*◌, ◌≤◌, ◌<◌, ◌≡◌, refl, ap, ◌∙◌, Bool, true, false, if◌then◌else◌, ltb,
  leb, ◌==◌, ◌&&◌, ◌||◌, arith, ==_iff, ◌^◌, inl, inr, Bool-cases,
}
use amp.Fp8.{
  sign_bit, negative, digits, round_shift, e4m3_pack, Float32, width, e4m3_to_f32, f32_to_e4m3,
  e4m3_magnitude, e5m2_to_f32, f32_to_e5m2,
}

-- The code `last` and those under it pass a test.
pass : (ℕ → Bool) → ℕ → Bool
pass test zero = test zero
pass test (suc last) = let rest = pass test last in if test (suc last) then rest else false

pass_lem : (test : ℕ → Bool) (last : ℕ) → pass test last ≡ true → (v : ℕ) → v ≤ last → test v ≡ true
unfolding pass
pass_lem test zero ok v le = let first : v ≡ 0 = omega (arith, le) in ap test first ∙ ok
pass_lem test (suc last) ok v le = elim (Bool-cases (test (suc last))) [
  | inr fails ↦ absurd (let bad = ok in cc)
  | inl here ↦
      let under : pass test last ≡ true = ground arith in
      elim (Bool-cases (v == suc last)) [
        | inl top ↦ ap test ((==_iff v (suc last)).0 top) ∙ here
        | inr other ↦ pass_lem test last under v (ground arith)
      ]
]

-- What comes back for a code: the negative zero loses its sign, and both NaNs become one.
abbrev pub e4m3_again : ℕ → ℕ
e4m3_again v = if v == 0x80 then 0 else if v == 0xff then 0x7f else v

e4m3_table : pass (λ v. f32_to_e4m3 (e4m3_to_f32 v) == e4m3_again v) 255 ≡ true
unfolding pass f32_to_e4m3 e4m3_to_f32 width
e4m3_table = refl

-- For E5M2 the six NaNs become one.
abbrev pub e5m2_again : ℕ → ℕ
e5m2_again v = if v == 0x80 then 0 else if ltb 0x7c v && ltb v 0x80 || ltb 0xfc v then 0x7f else v

e5m2_table : pass (λ v. f32_to_e5m2 (e5m2_to_f32 v) == e5m2_again v) 255 ≡ true
unfolding pass f32_to_e5m2 e5m2_to_f32 width
e5m2_table = refl

-- Each of the 256 codes of E4M3 and of E5M2 comes back from the `float` that it stands for, except
-- that the negative zero loses its sign and the NaNs of a format become one.
pub roundtrip :
    (v : ℕ)
    → v < 256
    → (f32_to_e4m3 (e4m3_to_f32 v) ≡ e4m3_again v) × (f32_to_e5m2 (e5m2_to_f32 v) ≡ e5m2_again v)
roundtrip v h = (
  (==_iff _ _).0 (pass_lem _ 255 e4m3_table v (omega arith)),
  (==_iff _ _).0 (pass_lem _ 255 e5m2_table v (omega arith)),
)

-- A code with the sign bit `sign` that is no NaN of E4M3.
abbrev pub IsNumber : ℕ → ℕ → Type 0
IsNumber sign v = (sign ≤ v) × (v ≤ sign + 0x7e)

e4m3_pack-IsNumber : (sign e m : ℕ) → e ≤ 15 → IsNumber sign (e4m3_pack sign e m)
e4m3_pack-IsNumber sign e m h = ground arith

subnormal-IsNumber : (sign mant : ℕ) → IsNumber sign (sign + (if ltb 7 mant then 7 else mant))
subnormal-IsNumber sign mant = ground arith

e4m3_magnitude-IsNumber : (sign n : ℕ) → IsNumber sign (e4m3_magnitude sign n)
unfolding e4m3_magnitude
e4m3_magnitude-IsNumber sign n =
    let w = digits n in
    let e = if ltb 15 (w - 143) then 15 else w - 143 in
    let m = round_shift (n - 2 ^ (w - 1)) (w - 4) in
    let mant = round_shift n 140 in
    elim (Bool-cases (leb w 143)) [
      | inl sub ↦ rw (sub, e4m3_magnitude) (subnormal-IsNumber sign mant)
      | inr norm ↦ rw (norm, e4m3_magnitude) (e4m3_pack-IsNumber sign e m (ground arith))
    ]

-- Every `float` that is no NaN becomes a number of E4M3: infinities and magnitudes above 448 too, and
-- the sign bit is that of a negative `float`.
pub f32_to_e4m3-IsNumber :
    (s : Bool) (n : ℕ)
    → IsNumber (sign_bit (negative s n)) (f32_to_e4m3 (Float32.fin s n))
      × IsNumber (sign_bit s) (f32_to_e4m3 (Float32.inf s))
unfolding f32_to_e4m3
f32_to_e4m3-IsNumber s n =
    let sign = sign_bit (negative s n) in
    let n' = if ltb (448 * 2 ^ 149) n then 448 * 2 ^ 149 else n in
    (
      elim (Bool-cases (n' == 0)) [
        | inl zero_ ↦ rw (zero_, f32_to_e4m3) (omega arith, omega arith)
        | inr more ↦ rw (more, f32_to_e4m3) (e4m3_magnitude-IsNumber sign n')
      ],
      e4m3_magnitude-IsNumber (sign_bit s) (448 * 2 ^ 149),
    )
