-- ===== src/Flash/Exact.antt =====
-- The exact arithmetic in which kernels/flash_attn.cu is taken, and its sums.
use amp.Prelude.{ℕ, zero, suc, ◌+◌, ◌≤◌, ◌<◌, ◌≡◌, refl, sym, ap, ◌∙◌, true, arith, ◌⊎◌}
use mathlib.Core.Path.{fun_ext}
use amp.Matmul.{Gpu, sum_loop}
use amp.Matmul.Sums.{sum_loop-shift, sum_loop-append}
use amp.Flash.{FlashOps}

-- Exact arithmetic. `IsScore` are the numbers that scores and their maxima are, all above the mark of
-- a key that is masked, whose weight is 0. `NonNeg` are the sums of weights.
pub record IsExact (gpu : Gpu) (ops : FlashOps gpu) : Type 1 where
  pub add_assoc : (x y z : gpu.Float) → gpu.add (gpu.add x y) z ≡ gpu.add x (gpu.add y z)
  pub add_zero : (x : gpu.Float) → gpu.add x gpu.f_zero ≡ x
  pub zero_add : (x : gpu.Float) → gpu.add gpu.f_zero x ≡ x
  pub mul_assoc : (x y z : gpu.Float) → gpu.mul (gpu.mul x y) z ≡ gpu.mul x (gpu.mul y z)
  pub mul_comm : (x y : gpu.Float) → gpu.mul x y ≡ gpu.mul y x
  pub one_mul : (x : gpu.Float) → gpu.mul ops.f_one x ≡ x
  pub mul_zero : (x : gpu.Float) → gpu.mul x gpu.f_zero ≡ gpu.f_zero
  pub mul_add : (x y z : gpu.Float) → gpu.mul x (gpu.add y z) ≡ gpu.add (gpu.mul x y) (gpu.mul x z)
  pub mul_div : (x y : gpu.Float) → ops.lt gpu.f_zero x ≡ true → gpu.mul x (ops.div y x) ≡ y
  pub IsScore : gpu.Float → Type 0
  pub fmax_left :
      (x y : gpu.Float) → IsScore x → (y ≡ ops.neg_big) ⊎ IsScore y → IsScore (ops.fmax x y)
  pub fmax_right :
      (x y : gpu.Float) → (x ≡ ops.neg_big) ⊎ IsScore x → IsScore y → IsScore (ops.fmax x y)
  pub exp_add :
      (x y z : gpu.Float)
      → IsScore x
      → IsScore y
      → IsScore z
      → gpu.mul (ops.exp (ops.sub x y)) (ops.exp (ops.sub y z)) ≡ ops.exp (ops.sub x z)
  pub exp_masked : (x : gpu.Float) → IsScore x → ops.exp (ops.sub ops.neg_big x) ≡ gpu.f_zero
  pub exp_positive :
      (x y : gpu.Float) → IsScore x → IsScore y → ops.lt gpu.f_zero (ops.exp (ops.sub x y)) ≡ true
  pub NonNeg : gpu.Float → Type 0
  pub NonNeg-zero : NonNeg gpu.f_zero
  pub NonNeg-positive : (x : gpu.Float) → ops.lt gpu.f_zero x ≡ true → NonNeg x
  pub positive-add :
      (x y : gpu.Float)
      → ops.lt gpu.f_zero x ≡ true
      → NonNeg y
      → ops.lt gpu.f_zero (gpu.add x y) ≡ true

module _ (gpu : Gpu) (ops : FlashOps gpu) (exact : IsExact gpu ops) where
  open gpu use {Float, f_zero, add, mul}
  open ops use {f_one, neg_big, lt, sub, div, fmax, exp}

  -- A score, or the mark of a masked key.
  abbrev pub IsReal : Float → Type 0
  IsReal x = (x ≡ neg_big) ⊎ exact.IsScore x

  abbrev pub total : (ℕ → Float) → ℕ → Float
  total f n = sum_loop gpu f n 0 f_zero

  sum_loop-acc :
      (f : ℕ → Float) (n i : ℕ) (acc : Float)
      → sum_loop gpu f n i acc ≡ add acc (sum_loop gpu f n i f_zero)
  unfolding sum_loop
  sum_loop-acc f zero i acc = sym (exact.add_zero acc)
  sum_loop-acc f (suc n) i acc =
      sum_loop-acc f n (i + 1) (add acc (f i))
      ∙ exact.add_assoc acc (f i) _
      ∙ ap (add acc) (
          sym (sum_loop-acc f n (i + 1) (f i))
          ∙ ap (sum_loop gpu f n (i + 1)) (sym (exact.zero_add (f i))))

  mul-sum_loop :
      (c : Float) (f : ℕ → Float) (n i : ℕ) (acc : Float)
      → mul c (sum_loop gpu f n i acc) ≡ sum_loop gpu (λ j. mul c (f j)) n i (mul c acc)
  unfolding sum_loop
  mul-sum_loop c f zero i acc = refl
  mul-sum_loop c f (suc n) i acc =
      mul-sum_loop c f n (i + 1) (add acc (f i))
      ∙ ap (sum_loop gpu (λ j. mul c (f j)) n (i + 1)) (exact.mul_add c acc (f i))

  pub mul-total :
      (c : Float) (f : ℕ → Float) (n : ℕ) → mul c (total f n) ≡ total (λ j. mul c (f j)) n
  mul-total c f n =
      mul-sum_loop c f n 0 f_zero ∙ ap (sum_loop gpu (λ j. mul c (f j)) n 0) (exact.mul_zero c)

  pub total-congr : (f g : ℕ → Float) (n : ℕ) → ((j : ℕ) → f j ≡ g j) → total f n ≡ total g n
  total-congr f g n same = ap (λ h. total h n) (fun_ext same)

  -- The sum so far and that of a tile are the sum with the tile.
  pub total-tile :
      (f g : ℕ → Float) (n bc : ℕ)
      → ((j : ℕ) → j < bc → f j ≡ g (n + j))
      → add (total g n) (total f bc) ≡ total g (n + bc)
  total-tile f g n bc same =
      let here : n + 0 ≡ n = omega arith in
      let there : n ≡ 0 + n = omega arith in
      ap (add (total g n)) (
        sum_loop-shift gpu f g n bc 0 f_zero (λ j less. same j (omega arith))
        ∙ ap (λ x. sum_loop gpu g bc x f_zero) here)
      ∙ sym (sum_loop-acc g bc n (total g n))
      ∙ ap (λ x. sum_loop gpu g bc x (total g n)) there
      ∙ sym (sum_loop-append gpu g n bc 0 f_zero)

  -- Terms that vanish from `k` on add nothing.
  sum_loop-vanish :
      (f : ℕ → Float) (k n i : ℕ) (acc : Float)
      → ((j : ℕ) → k ≤ j → f j ≡ f_zero)
      → k ≤ i
      → sum_loop gpu f n i acc ≡ acc
  unfolding sum_loop
  sum_loop-vanish f k zero i acc gone past = refl
  sum_loop-vanish f k (suc n) i acc gone past =
      sum_loop-vanish f k n (i + 1) (add acc (f i)) gone (omega arith)
      ∙ ap (add acc) (gone i past)
      ∙ exact.add_zero acc

  pub total-vanish :
      (f : ℕ → Float) (k n : ℕ) → ((j : ℕ) → k ≤ j → f j ≡ f_zero) → total f (k + n) ≡ total f k
  total-vanish f k n gone =
      sum_loop-append gpu f k n 0 f_zero
      ∙ sum_loop-vanish f k n (0 + k) (total f k) gone (omega arith)

  pub zero_mul : (x : Float) → mul f_zero x ≡ f_zero
  zero_mul x = exact.mul_comm f_zero x ∙ exact.mul_zero x

  pub total_below :
      (f g : ℕ → Float) (n : ℕ) → ((j : ℕ) → j < n → f j ≡ g j) → total f n ≡ total g n
  total_below f g n same =
      let move : (j : ℕ) → j ≡ 0 + j = λ j. omega arith in
      sum_loop-shift gpu f g 0 n 0 f_zero (λ j less. same j (omega arith) ∙ ap g (move j))
