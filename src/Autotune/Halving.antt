-- ===== src/Autotune/Halving.antt =====
-- `successive_halving` (include/autotune_sh.hpp): when it ends, and with what.
use amp.Prelude.{
  ℕ, zero, suc, ◌+◌, ◌*◌, ◌/◌, ◌≤◌, ◌<◌, ◌≡◌, refl, ap, ◌∙◌, false, List, [], ◌∷◌, Option, none,
  some, length, take, map, min, max, leb, ◌&&◌, ◌==◌, arith, inl, inr, Bool-cases, Option-cases,
  All, length-take, length-map,
}
use amp.Autotune.{Bench, Item, ShResult, measure_all, halving_loop, successive_halving, Sorts}

All-take {ℓ κ} : {A : Type ℓ} (P : A → Type κ) (n : ℕ) (xs : List A) → All P xs → All P (take n xs)
All-take P zero xs h = tt
All-take P (suc n) [] h = tt
All-take P (suc n) (x ∷ xs) h = (h.0, All-take P n xs h.1)

halves : (n eta : ℕ) → 2 ≤ eta → 2 ≤ n → max 1 (n / eta) < n
halves n eta h k = grind arith

module _ {Cfg : Type 0} (b : Bench Cfg) where
  length-measure_all :
      (reps : ℕ) (items : List (Item b)) (s : b.State)
      → length (measure_all b reps items s).0 ≡ length items
  unfolding measure_all
  length-measure_all reps [] s = refl
  length-measure_all reps (it ∷ items) s =
      ap suc (length-measure_all reps items (b.measure it.cfg reps s).1)

  All-measure_all :
      (P : Cfg → Type 0) (reps : ℕ) (items : List (Item b)) (s : b.State)
      → All (λ it. P it.cfg) items
      → All (λ it. P it.cfg) (measure_all b reps items s).0
  unfolding measure_all
  All-measure_all P reps [] s h = tt
  All-measure_all P reps (it ∷ items) s h =
      (h.0, All-measure_all P reps items (b.measure it.cfg reps s).1 h.1)

  module _ (sort : List (Item b) → List (Item b)) (sorts : Sorts b sort) where
    -- A result: one item is alive, and it is one of the candidates.
    abbrev One : (Cfg → Type 0) → Option (List (Item b) × ℕ × b.State) → Type 0
    One P none = ⊥
    One P (some (alive, evals, s)) = (length alive ≡ 1) × All (λ it. P it.cfg) alive

    loop-One :
        (P : Cfg → Type 0) (max_reps fuel : ℕ) (alive : List (Item b)) (reps evals : ℕ)
        (s : b.State)
        → 2 ≤ b.eta
        → 0 < length alive
        → length alive ≤ fuel
        → All (λ it. P it.cfg) alive
        → One P (halving_loop b sort max_reps fuel alive reps evals s)
    unfolding halving_loop
    loop-One P max_reps zero alive reps evals s two some_ enough h = absurd (omega arith)
    loop-One P max_reps (suc fuel) alive reps evals s two some_ enough h =
        let m = measure_all b reps alive s in
        let keep = max 1 (length alive / b.eta) in
        let kept = take keep (sort m.0) in
        let size : length kept ≡ min keep (length alive) =
          length-take keep (sort m.0)
          ∙ ap (min keep) (sorts.length-sort m.0 ∙ length-measure_all reps alive s) in
        let h' =
          All-take (λ it. P it.cfg) keep (sort m.0)
            (sorts.All-sort (λ it. P it.cfg) m.0 (All-measure_all P reps alive s h)) in
        elim (Bool-cases (leb (length alive) 1)) [
          | inl one ↦ rw (one, halving_loop) (ground arith, h)
          | inr many ↦
              let fewer : keep < length alive = halves (length alive) b.eta two (ground arith) in
              elim (Bool-cases (leb max_reps (min max_reps (b.grow reps)) && length kept == 1)) [
                | inl last ↦ rw (many, last, halving_loop) (ground arith, h')
                | inr more ↦
                    rw (many, more, halving_loop)
                      (loop-One P max_reps fuel kept (min max_reps (b.grow reps))
                        (evals + reps * length alive) m.1 two (omega arith) (omega arith) h')
              ]
        ]

    All-start :
        (P : Cfg → Type 0) (cs : List Cfg)
        → All P cs
        → All (λ (it : Item b). P it.cfg) (map (λ c. record { cfg = c; score = b.t_zero }) cs)
    All-start P [] h = tt
    All-start P (c ∷ cs) h = (h.0, All-start P cs h.1)

    -- With `eta` from 2 on, `successive_halving` returns on every list of candidates with one at
    -- least, after at most as many rounds as there are candidates, and what it returns is one of
    -- them: it has each property that all of them have.
    pub successive_halving_returns :
        (P : Cfg → Type 0) (c : Cfg) (cs : List Cfg) (fuel min_reps max_reps : ℕ) (s : b.State)
        → 2 ≤ b.eta
        → length (c ∷ cs) ≤ fuel
        → All P (c ∷ cs)
        → (r : ShResult b) × (s' : b.State) × (successive_halving b sort fuel
              (c ∷ cs)
              min_reps
              max_reps
              s
            ≡ some (r, s'))
          × P r.best
    unfolding successive_halving
    successive_halving_returns P c cs fuel min_reps max_reps s two enough h =
        let start : List (Item b) = map (λ c. record { cfg = c; score = b.t_zero }) (c ∷ cs) in
        let size : length start ≡ length (c ∷ cs) =
          length-map (c ∷ cs) (λ c. record { cfg = c; score = b.t_zero }) in
        let one =
          loop-One P max_reps fuel start min_reps 0 s two (omega arith) (omega arith)
            (All-start P (c ∷ cs) h) in
        elim (Option-cases (halving_loop b sort max_reps fuel start min_reps 0 s)) [
          | inl gone ↦ absurd (rw gone at one)
          | inr (([], evals, s'), e) ↦
              let h' : One P (some ([], evals, s')) = rw e at one in absurd (omega (arith, h'.0))
          | inr ((it ∷ items, evals, s'), e) ↦
              let h' : One P (some (it ∷ items, evals, s')) = rw e at one in
              let m = b.measure it.cfg max_reps s' in
              (
                record { best = it.cfg; best_score = m.0; total_evals = evals + max_reps },
                m.1,
                rw (e, successive_halving) refl,
                h'.1.0,
              )
        ]

    -- With `eta` from 1 to below 2, whose whole part is 1, no number of rounds is enough for two
    -- items or more: nothing is dropped.
    pub halving_diverges :
        (max_reps fuel : ℕ) (alive : List (Item b)) (reps evals : ℕ) (s : b.State)
        → b.eta ≡ 1
        → 2 ≤ length alive
        → halving_loop b sort max_reps fuel alive reps evals s ≡ none
    unfolding halving_loop
    halving_diverges max_reps zero alive reps evals s one many = refl
    halving_diverges max_reps (suc fuel) alive reps evals s one many =
        let m = measure_all b reps alive s in
        let keep = max 1 (length alive / b.eta) in
        let kept = take keep (sort m.0) in
        let same : length (sort m.0) ≡ length alive =
          sorts.length-sort m.0 ∙ length-measure_all reps alive s in
        let whole : keep ≡ length alive = omega (arith, ap (λ e. max 1 (length alive / e)) one) in
        let size : length kept ≡ length alive = length-take keep (sort m.0) ∙ omega arith in
        let go : leb (length alive) 1 ≡ false = ground arith in
        let stay : (leb max_reps (min max_reps (b.grow reps)) && length kept == 1) ≡ false =
          ground arith in
        rw (go, stay, halving_loop)
          (halving_diverges max_reps fuel kept (min max_reps (b.grow reps))
            (evals + reps * length alive) m.1 one (omega arith))
