-- ===== src/Tests/Autotunes.antt =====
-- `successive_halving` and `grid_search` (include/autotune_sh.hpp) with natural numbers for times.
use amp.Prelude.{
  ℕ, suc, ◌+◌, ◌*◌, ◌<◌, ◌≡◌, refl, ap, List, [], ◌∷◌, some, if◌then◌else◌, length, ltb, arith, inl,
  inr, All, Bool-cases, ◌∙◌,
}
use amp.Autotune.{Bench, Item, ShResult, Sorts, successive_halving}
use amp.Autotune.Halving.{successive_halving_returns}

-- A configuration is its own time, and each measurement is counted.
abbrev bench : ℕ → Bench ℕ
bench eta = record {
  Time = ℕ;
  State = ℕ;
  lt = ltb;
  t_zero = 0;
  t_1e18 = 1000;
  measure = λ c reps s. (c, s + 1);
  eta = eta;
  grow = λ reps. reps * eta;
}

module _ (eta : ℕ) where
  insert : Item (bench eta) → List (Item (bench eta)) → List (Item (bench eta))
  insert it [] = it ∷ []
  insert it (x ∷ xs) =
      let rest = insert it xs in if ltb it.score x.score then it ∷ x ∷ xs else x ∷ rest

  sort : List (Item (bench eta)) → List (Item (bench eta))
  unfolding insert
  sort [] = []
  sort (x ∷ xs) = insert x (sort xs)

  length-insert :
      (it : Item (bench eta)) (xs : List (Item (bench eta)))
      → length (insert it xs) ≡ suc (length xs)
  unfolding insert
  length-insert it [] = refl
  length-insert it (x ∷ xs) = elim (Bool-cases (ltb it.score x.score)) [
    | inl e ↦ rw (e, insert) refl
    | inr e ↦ rw (e, insert) (ap suc (length-insert it xs))
  ]

  length-sort : (xs : List (Item (bench eta))) → length (sort xs) ≡ length xs
  unfolding sort
  length-sort [] = refl
  length-sort (x ∷ xs) = length-insert x (sort xs) ∙ ap suc (length-sort xs)

  All-insert :
      (P : Item (bench eta) → Type 0) (it : Item (bench eta)) (xs : List (Item (bench eta)))
      → P it
      → All P xs
      → All P (insert it xs)
  unfolding insert
  All-insert P it [] h hs = (h, tt)
  All-insert P it (x ∷ xs) h hs = elim (Bool-cases (ltb it.score x.score)) [
    | inl e ↦ rw (e, insert) (h, hs)
    | inr e ↦ rw (e, insert) (hs.0, All-insert P it xs h hs.1)
  ]

  All-sort :
      (P : Item (bench eta) → Type 0) (xs : List (Item (bench eta))) → All P xs → All P (sort xs)
  unfolding sort
  All-sort P [] h = tt
  All-sort P (x ∷ xs) h = All-insert P x (sort xs) h.0 (All-sort P xs h.1)

  sorts : Sorts (bench eta) sort
  sorts = record { length-sort = length-sort; All-sort = All-sort }

successive_halving_returns_example :
    (r : ShResult (bench 2)) × (s' : ℕ) × (successive_halving
        (bench 2)
        (sort 2)
        4
        (7 ∷ 3 ∷ 9 ∷ 5 ∷ [])
        1
        32
        0
      ≡ some (r, s'))
    × (r.best < 10)
successive_halving_returns_example =
    successive_halving_returns (bench 2) (sort 2) (sorts 2) (λ c. c < 10) 7 (3 ∷ 9 ∷ 5 ∷ []) 4 1 32
      0 (omega arith) (omega arith) (omega arith, (omega arith, (omega arith, (omega arith, tt))))
