-- ===== src/Fp8/Rounding.antt =====
-- The rounding of `f32_to_e4m3` (include/fp8.hpp) on magnitudes below the normal numbers.
use amp.Prelude.{
  ℕ, zero, suc, ◌+◌, ◌-◌, ◌*◌, ◌/◌, ◌^◌, ◌≤◌, ◌<◌, ◌≡◌, refl, ap, subst, ◌∙◌, true, false, ltb, leb,
  ◌==◌, arith, inl, inr, Bool-cases, ◌%◌, ◌&&◌,
}
use amp.Fp8.{
  e4m3_pack, Float32, width, digits, round_shift, f32_to_e4m3, e4m3_to_f32, e4m3_magnitude,
}

double : (k : ℕ) → 2 ^ suc k ≡ 2 * 2 ^ k
double k = grind arith

step : (a b : ℕ) → b ≡ suc a → 2 ^ b ≡ 2 * 2 ^ a
step a b e = ap (λ x. 2 ^ x) e ∙ double a

width-zero : (fuel : ℕ) → width fuel 0 ≡ 0
unfolding width
width-zero zero = refl
width-zero (suc fuel) = refl

pub width-upper : (fuel n : ℕ) → n < 2 ^ fuel → n < 2 ^ width fuel n
unfolding width
width-upper zero n h = h
width-upper (suc fuel) n h =
    ground (arith, double fuel, width-upper fuel (n / 2), double (width fuel (n / 2)))

pub width-lower : (fuel n : ℕ) → 0 < n → n < 2 ^ fuel → 2 ^ width fuel n ≤ 2 * n
unfolding width
width-lower zero n pos h = absurd (omega arith)
width-lower (suc fuel) n pos h = elim (Bool-cases (n / 2 == 0)) [
  | inl e ↦
      let none_left : width fuel (n / 2) ≡ 0 = ap (width fuel) (ground arith) ∙ width-zero fuel in
      ground (arith, ap (λ k. 2 ^ (1 + k)) none_left)
  | inr e ↦ ground (arith, double fuel, width-lower fuel (n / 2), double (width fuel (n / 2)))
]

div_bounds : (a p : ℕ) → 0 < p → ((a / p) * p ≤ a) × (a < (a / p) * p + p)
div_bounds a p h = grind arith

-- What a code of a normal number stands for.
decode_normal :
    (e m : ℕ)
    → 1 ≤ e
    → e ≤ 15
    → m < 8
    → ¬ ((e ≡ 15) × (m ≡ 7))
    → e4m3_to_f32 (e * 8 + m) ≡ Float32.fin false ((8 + m) * 2 ^ (e + 139))
unfolding e4m3_to_f32
decode_normal e m lo hi small no_nan =
    let d1 : (e * 8 + m) / 8 % 16 ≡ e = omega arith in
    let d2 : (e * 8 + m) % 8 ≡ m = omega arith in
    let d3 : (e * 8 + m) / 128 % 2 ≡ 0 = omega arith in
    let t1 : (e == 0) ≡ false = ground arith in
    let t2 : (e == 15 && m == 7) ≡ false = ground (arith, no_nan) in rw (d1, d2, d3, t2, t1) refl

-- The mantissa of `n` between `8 * p` and `16 * p`, with half of `p` for the rounding.
mantissa_near :
    (n p h : ℕ)
    → p ≡ 2 * h
    → 0 < h
    → 8 * p ≤ n
    → n < 16 * p
    → let m = (n - 8 * p + h) / p in (m ≤ 8) × ((8 + m) * p ≤ n + h) × (n ≤ (8 + m) * p + h)
mantissa_near n p h even pos lo hi =
    let m = (n - 8 * p + h) / p in
    let b = div_bounds (n - 8 * p + h) p (omega arith) in
    (grind (arith, b), omega (arith, b), omega (arith, b))

top_small :
    (n m p h : ℕ) → p ≡ 2 ^ 154 → p ≡ 2 * h → (8 + m) * p ≤ n + h → n ≤ 448 * 2 ^ 149 → m ≤ 6
top_small n m p h e even le hi =
    let le' : (8 + m) * 2 ^ 154 ≤ n + h = subst (λ x. (8 + m) * x ≤ n + h) e le in omega arith

packed_value :
    (e m : ℕ)
    → 1 ≤ e
    → e ≤ 15
    → m ≤ 8
    → (e ≡ 15 → m ≤ 6)
    → e4m3_to_f32 (e4m3_pack 0 e m) ≡ Float32.fin false ((8 + m) * 2 ^ (e + 139))
packed_value e m lo hi small top = elim (Bool-cases (leb 8 m)) [
  | inl carry ↦
      let m_is : m ≡ 8 = ground arith in
      let e_lt : e < 15 = elim (Bool-cases (e == 15)) [
        | inl e15 ↦ absurd (let h = top (ground arith) in omega arith)
        | inr _ ↦ ground arith
      ] in
      let code : e4m3_pack 0 e m ≡ (e + 1) * 8 + 0 = ground arith in
      let twice : 2 ^ (e + 1 + 139) ≡ 2 * 2 ^ (e + 139) =
        step (e + 139) (e + 1 + 139) (omega arith) in
      let value : (8 + 0) * 2 ^ (e + 1 + 139) ≡ (8 + m) * 2 ^ (e + 139) =
        omega (arith, twice, ap (λ x. (8 + x) * 2 ^ (e + 139)) m_is) in
      ap e4m3_to_f32 code
      ∙ decode_normal (e + 1) 0 (omega arith) (omega arith) (omega arith) (λ (a, b). omega arith)
      ∙ ap (Float32.fin false) value
  | inr stays ↦
      let limit : ¬ ((e ≡ 15) × (m ≡ 7)) = λ c. (let h = top c.0 in omega (arith, c.1)) in
      let code : e4m3_pack 0 e m ≡ e * 8 + m = ground (arith, top) in
      ap e4m3_to_f32 code ∙ decode_normal e m lo hi (ground arith) limit
]

-- The `float` that `f32_to_e4m3` stands for is within half a unit of the last place.
pub record Near (n : ℕ) (v : ℕ) : Type 0 where
  pub value : ℕ
  pub decoded : e4m3_to_f32 v ≡ Float32.fin false value
  pub above : value ≤ n + 2 ^ (digits n - 5)
  pub below : n ≤ value + 2 ^ (digits n - 5)

pow_mono : (a b : ℕ) → a ≤ b → 2 ^ a ≤ 2 ^ b
pow_mono zero zero h = omega arith
pow_mono zero (suc b) h = omega (arith, double b, pow_mono zero b (omega arith))
pow_mono (suc a) zero h = absurd (omega arith)
pow_mono (suc a) (suc b) h = omega (arith, double a, double b, pow_mono a b (omega arith))

pow_lt : (a b : ℕ) → 2 ^ a < 2 ^ b → a < b
pow_lt a b h = elim (Bool-cases (leb b a)) [
  | inl e ↦ absurd (omega (arith, pow_mono b a (ground arith)))
  | inr e ↦ ground arith
]

powers :
    (w : ℕ)
    → 5 ≤ w
    → (2 ^ (w - 4) ≡ 2 * 2 ^ (w - 5))
      × (2 ^ (w - 3) ≡ 2 * 2 ^ (w - 4))
      × (2 ^ (w - 1) ≡ 8 * 2 ^ (w - 4))
      × (2 ^ w ≡ 16 * 2 ^ (w - 4))
      × (0 < 2 ^ (w - 5))
powers w h =
    let s1 = step (w - 5) (w - 4) (omega arith) in
    let s2 = step (w - 4) (w - 3) (omega arith) in
    let s3 = step (w - 3) (w - 2) (omega arith) in
    let s4 = step (w - 2) (w - 1) (omega arith) in
    let s5 = step (w - 1) w (omega arith) in
    (
      s1,
      s2,
      omega (arith, s2, s3, s4),
      omega (arith, s2, s3, s4, s5),
      omega (arith, pow_mono 0 (w - 5)),
    )

module _ (n : ℕ) (lo : 2 ^ 143 ≤ n) (hi : n ≤ 448 * 2 ^ 149) where
  upper : n < 2 ^ digits n
  upper = width-upper 176 n (omega arith)

  lower : 2 ^ digits n ≤ 2 * n
  lower = width-lower 176 n (omega arith) (omega arith)

  w-lo : 144 ≤ digits n
  w-lo = omega (arith, pow_lt 143 (digits n) (omega (arith, upper)))

  w-hi : digits n ≤ 158
  w-hi = omega (arith, pow_lt (digits n) 159 (omega (arith, lower)))

  -- `f32_to_e4m3` rounds to nearest: on magnitudes from the least normal number to 448 the code's
  -- value is off by half a unit of the last place at most.
  pub f32_to_e4m3-Near : Near n (f32_to_e4m3 (Float32.fin false n))
  unfolding f32_to_e4m3 e4m3_magnitude
  f32_to_e4m3-Near =
      let w = digits n in
      let p = 2 ^ (w - 4) in
      let h = 2 ^ (w - 5) in
      let (p_is, p2, p8, p16, pos) = powers w (omega (arith, w-lo)) in
      let m = (n - 8 * p + h) / p in
      let (small, above, below) =
        mantissa_near n p h p_is pos (omega (arith, lower)) (omega (arith, upper)) in
      let in_range : ltb (448 * 2 ^ 149) n ≡ false = ground arith in
      let more : (n == 0) ≡ false = ground arith in
      let normal : leb w 143 ≡ false = ground (arith, w-lo) in
      let exponent : ltb 15 (w - 143) ≡ false = ground (arith, w-hi) in
      let m_is : round_shift (n - 2 ^ (w - 1)) (w - 4) ≡ m =
        ap (λ x. (n - x + 2 ^ (w - 4 - 1)) / p) p8
        ∙ ap (λ x. (n - 8 * p + 2 ^ x) / p) (omega arith) in
      let code : f32_to_e4m3 (Float32.fin false n) ≡ e4m3_pack 0 (w - 143) m =
        rw (in_range, more, normal, exponent, m_is, f32_to_e4m3, e4m3_magnitude) refl in
      let top : w - 143 ≡ 15 → m ≤ 6 = λ e.
        (let place : w - 4 ≡ 154 = omega arith in
          top_small n m p h (ap (λ x. 2 ^ x) place) p_is above hi) in
      let value = packed_value (w - 143) m (omega (arith, w-lo)) (omega (arith, w-hi)) small top in
      let same : 2 ^ (w - 143 + 139) ≡ p = ap (λ x. 2 ^ x) (omega (arith, w-lo)) in
      record {
        value = (8 + m) * p;
        decoded = ap e4m3_to_f32 code ∙ value ∙ ap (λ x. Float32.fin false ((8 + m) * x)) same;
        above = above;
        below = below;
      }

-- Between the largest subnormal number and the least normal one it does not: above the middle the
-- nearer number is the normal one, of the code 8, and the code's rounding stops at 7.
pub subnormal_top :
    (n : ℕ)
    → 15 * 2 ^ 139 < n
    → n < 2 ^ 143
    → (f32_to_e4m3 (Float32.fin false n) ≡ 7)
      × (e4m3_to_f32 7 ≡ Float32.fin false (7 * 2 ^ 140))
      × (e4m3_to_f32 8 ≡ Float32.fin false (2 ^ 143))
      × (2 ^ 143 - n < n - 7 * 2 ^ 140)
unfolding f32_to_e4m3 e4m3_magnitude e4m3_to_f32
subnormal_top n lo hi =
    let w_hi : digits n ≤ 143 = omega (
      arith,
      pow_lt (digits n) 144 (omega (arith, width-lower 176 n (omega arith) (omega arith))),
    ) in
    let in_range : ltb (448 * 2 ^ 149) n ≡ false = ground arith in
    let more : (n == 0) ≡ false = ground arith in
    let sub : leb (digits n) 143 ≡ true = ground arith in
    let big : ltb 7 (round_shift n 140) ≡ true = ground arith in
    (rw (in_range, more, sub, big, f32_to_e4m3, e4m3_magnitude) refl, refl, refl, omega arith)
