-- ===== src/Autotune/Grid.antt =====
-- `grid_search` (include/autotune_sh.hpp): the best of all measurements.
use amp.Prelude.{
  ℕ, ◌+◌, ◌*◌, ◌≡◌, refl, true, false, List, [], ◌∷◌, length, arith, ◌⊎◌, inl, inr, Bool-cases, All,
}
use amp.Autotune.{Bench, ShResult, grid_loop, grid_search}

module _ {Cfg : Type 0} (b : Bench Cfg) where
  -- The measurements that the search makes, in order.
  abbrev pub measured : ℕ → List Cfg → b.State → List (Cfg × b.Time)
  measured reps [] s = []
  measured reps (c ∷ cs) s = let m = b.measure c reps s in (c, m.0) ∷ measured reps cs m.1

  -- One of the list.
  abbrev pub OneOf : Cfg → b.Time → List (Cfg × b.Time) → Type 0
  OneOf c t [] = ⊥
  OneOf c t ((d, u) ∷ ms) = ((c ≡ d) × (t ≡ u)) ⊎ OneOf c t ms

  module _ (transitive : (x y z : b.Time) → b.lt x y ≡ true → b.lt y z ≡ true → b.lt x z ≡ true)
      (irreflexive : (x : b.Time) → b.lt x x ≡ false) where
    not_below : (x y z : b.Time) → b.lt y z ≡ true → b.lt x z ≡ false → b.lt x y ≡ false
    not_below x y z below h = elim (Bool-cases (b.lt x y)) [
      | inl less ↦ absurd (let e = transitive x y z less below in cc)
      | inr e ↦ e
    ]

    record Best (reps : ℕ) (cs : List Cfg) (r r' : ShResult b) (s : b.State) : Type 0 where
      evals : r'.total_evals ≡ r.total_evals + reps * length cs
      lowest : All (λ m. b.lt m.1 r'.best_score ≡ false) (measured reps cs s)
      below : (x : b.Time) → b.lt x r.best_score ≡ false → b.lt x r'.best_score ≡ false
      found :
          ((r'.best ≡ r.best) × (r'.best_score ≡ r.best_score))
          ⊎ OneOf r'.best r'.best_score (measured reps cs s)

    grid_loop-Best :
        (reps : ℕ) (cs : List Cfg) (r : ShResult b) (s : b.State)
        → Best reps cs r (grid_loop b reps cs r s).0 s
    unfolding grid_loop
    grid_loop-Best reps [] r s = record {
      evals = omega arith;
      lowest = tt;
      below = λ x h. h;
      found = inl (refl, refl);
    }
    grid_loop-Best reps (c ∷ cs) r s =
        let m = b.measure c reps s in
        elim (Bool-cases (b.lt m.0 r.best_score)) [
          | inl better ↦
              let r1 : ShResult b = record {
                best = c;
                best_score = m.0;
                total_evals = r.total_evals + reps;
              } in
              let g = grid_loop-Best reps cs r1 m.1 in
              rw (better, grid_loop)
                (record {
                  evals = grind (arith, g.evals);
                  lowest = (g.below m.0 (irreflexive m.0), g.lowest);
                  below = λ x h. g.below x (not_below x m.0 r.best_score better h);
                  found = inr (elim g.found [ inl e ↦ inl e | inr later ↦ inr later ]);
                })
          | inr worse ↦
              let r1 : ShResult b = record r { total_evals = r.total_evals + reps } in
              let g = grid_loop-Best reps cs r1 m.1 in
              rw (worse, grid_loop)
                (record {
                  evals = grind (arith, g.evals);
                  lowest = (g.below m.0 worse, g.lowest);
                  below = g.below;
                  found = elim g.found [ inl e ↦ inl e | inr later ↦ inr (inr later) ];
                })
        ]

    -- `grid_search` makes one measurement of `reps` repetitions for each candidate; no measurement is
    -- below the score that it returns, and either this is the measurement of the candidate it returns,
    -- or it is 1e18 with the blank configuration. The order of times is supposed to be transitive and
    -- irreflexive.
    grid_search-IsBest :
        (blank : Cfg) (cs : List Cfg) (reps : ℕ) (s : b.State)
        → let r = (grid_search b blank cs reps s).0 in
          (r.total_evals ≡ reps * length cs)
          × All (λ m. b.lt m.1 r.best_score ≡ false) (measured reps cs s)
          × (((r.best ≡ blank) × (r.best_score ≡ b.t_1e18))
              ⊎ OneOf r.best r.best_score (measured reps cs s))
    unfolding grid_search
    grid_search-IsBest blank cs reps s =
        let g =
          grid_loop-Best reps cs (record { best = blank; best_score = b.t_1e18; total_evals = 0 })
            s in
        (omega (arith, g.evals), g.lowest, g.found)
