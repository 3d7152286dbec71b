-- ===== src/Prelude/Arrays.antt =====
-- Vectors that are read and written at an index, and how often a number stands in a list.
use Prim.Native.Nat.{ℕ, zero, suc, ◌+◌, ◌≤◌, ◌<◌}
use mathlib.Core.Path.{◌≡◌, refl}
use mathlib.Core.Bool.{Bool, true, false}
use mathlib.Core.List.{List, [], ◌∷◌, ◌++◌}
use native.Mathlib.Omega.{arith}
use amp.Prelude.Tests.{ltb, ◌==◌, if◌then◌else◌}
use amp.Prelude.Lists.{length, get_or, set, replicate}

-- 1 for a test that holds, 0 for one that fails.
abbrev pub bit : Bool → ℕ
bit true = 1
bit false = 0

-- How often `a` stands in the list.
abbrev pub count : ℕ → List ℕ → ℕ
count a [] = 0
count a (x ∷ xs) = bit (x == a) + count a xs

-- Whether `a` stands in the list.
abbrev pub has : ℕ → List ℕ → Bool
has a xs = ltb 0 (count a xs)

-- What holds of every member of a list.
abbrev pub All {ℓ κ} : {A : Type ℓ} → (A → Type κ) → List A → Type κ
All P [] = Unit
All P (x ∷ xs) = P x × All P xs

pub All-snoc {ℓ κ} :
    {A : Type ℓ} (P : A → Type κ) (xs : List A) (y : A) → All P xs → P y → All P (xs ++ y ∷ [])
All-snoc P [] y h p = (p, tt)
All-snoc P (x ∷ xs) y h p = (h.0, All-snoc P xs y h.1 p)

module _ (a : ℕ) where
  pub count-append : (front back : List ℕ) → count a (front ++ back) ≡ count a front + count a back
  count-append [] back = omega arith
  count-append (x ∷ front) back = omega (arith, count-append front back)

module _ {ℓ} {A : Type ℓ} where
  -- A write at `i` is read back at `i`, where there is such a place, and nowhere else.
  pub get_or-set :
      (xs : List A) (i j : ℕ) (v d : A)
      → get_or (set xs i v) j d
        ≡ (if i == j then (if ltb i (length xs) then v else d) else get_or xs j d)
  get_or-set [] i j v d = ground arith
  get_or-set (x ∷ xs) zero zero v d = ground arith
  get_or-set (x ∷ xs) zero (suc j) v d = ground arith
  get_or-set (x ∷ xs) (suc i) zero v d = ground arith
  get_or-set (x ∷ xs) (suc i) (suc j) v d = ground (arith, get_or-set xs i j v d)

  -- A sum of weights over a vector.
  abbrev pub total : (A → ℕ) → List A → ℕ
  total w [] = 0
  total w (x ∷ xs) = w x + total w xs

  -- A write changes a sum by the weight of one place.
  pub total-set :
      (w : A → ℕ) (xs : List A) (i : ℕ) (v d : A)
      → i < length xs
      → total w (set xs i v) + w (get_or xs i d) ≡ total w xs + w v
  total-set w [] i v d h = absurd (omega arith)
  total-set w (x ∷ xs) zero v d h = omega arith
  total-set w (x ∷ xs) (suc i) v d h = omega (arith, total-set w xs i v d (omega arith))

  pub total-append : (w : A → ℕ) (xs ys : List A) → total w (xs ++ ys) ≡ total w xs + total w ys
  total-append w [] ys = omega arith
  total-append w (x ∷ xs) ys = omega (arith, total-append w xs ys)

  -- A write out of range changes nothing.
  pub set_of_le : (xs : List A) (i : ℕ) (v : A) → length xs ≤ i → set xs i v ≡ xs
  set_of_le [] i v h = refl
  set_of_le (x ∷ xs) zero v h = absurd (omega arith)
  set_of_le (x ∷ xs) (suc i) v h = rw (set_of_le xs i v (omega arith))

  -- A read out of range gives the default.
  pub get_or_of_le : (xs : List A) (i : ℕ) (d : A) → length xs ≤ i → get_or xs i d ≡ d
  get_or_of_le [] i d h = refl
  get_or_of_le (x ∷ xs) zero d h = absurd (omega arith)
  get_or_of_le (x ∷ xs) (suc i) d h = get_or_of_le xs i d (omega arith)

  -- A sum of weights that are all 0.
  pub total-eq-zero :
      (w : A → ℕ) (xs : List A) (d : A)
      → ((i : ℕ) → i < length xs → w (get_or xs i d) ≡ 0)
      → total w xs ≡ 0
  total-eq-zero w [] d h = refl
  total-eq-zero w (x ∷ xs) d h =
      omega (arith, h 0 (omega arith), total-eq-zero w xs d (λ i hi. h (suc i) (omega arith)))

  pub get_or-replicate : (n i : ℕ) (a : A) → get_or (replicate n a) i a ≡ a
  get_or-replicate zero i a = refl
  get_or-replicate (suc n) zero a = refl
  get_or-replicate (suc n) (suc i) a = get_or-replicate n i a
