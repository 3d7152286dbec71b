-- ===== src/Autotune.antt =====
-- include/autotune_sh.hpp: successive halving, and the grid search it is compared with. Times are a
-- parameter, with their order; so is the measurement, which changes a state of its own. Of `eta` the
-- code uses the whole part and the product with the repetitions.
pub mod Halving
pub mod Grid
use amp.Prelude.{
  ℕ, zero, suc, ◌+◌, ◌*◌, ◌/◌, ◌≤◌, ◌≡◌, Bool, true, false, List, [], ◌∷◌, Option, none, some,
  if◌then◌else◌, length, take, map, min, max, leb, ◌&&◌, ◌==◌, All,
}

-- `double`, `measure` and `eta`.
pub record Bench (Cfg : Type 0) : Type 1 where
  pub Time : Type 0
  pub State : Type 0
  pub lt : Time → Time → Bool
  pub t_zero : Time
  pub t_1e18 : Time
  pub measure : Cfg → ℕ → State → Time × State
  pub eta : ℕ
  pub grow : ℕ → ℕ

module _ {Cfg : Type 0} (b : Bench Cfg) where
  open b use {Time, State, lt, t_zero, t_1e18, measure, eta, grow}

  -- `Item` of `successive_halving`
  pub record Item : Type 0 where
    pub cfg : Cfg
    pub score : Time

  -- `struct SHResult`
  pub record ShResult : Type 0 where
    pub best : Cfg
    pub best_score : Time
    pub total_evals : ℕ

  -- The loop that measures each item.
  unfoldable pub measure_all : ℕ → List Item → State → List Item × State
  measure_all reps [] s = ([], s)
  measure_all reps (it ∷ items) s =
      let m = measure it.cfg reps s in
      let rest = measure_all reps items m.1 in (record it { score = m.0 } ∷ rest.0, rest.1)

  -- The loop of `successive_halving`, with fuel: the items alive after it, the evaluations, and the
  -- state; `none` is fuel that ran out. `sort` is `std::sort` by score.
  unfoldable pub halving_loop :
      (List Item → List Item) → ℕ → ℕ → List Item → ℕ → ℕ → State → Option (List Item × ℕ × State)
  unfolding measure_all
  halving_loop sort max_reps zero alive reps evals s = none
  halving_loop sort max_reps (suc fuel) alive reps evals s =
      let m = measure_all reps alive s in
      let keep = max 1 (length alive / eta) in
      let kept = take keep (sort m.0) in
      let reps' = min max_reps (grow reps) in
      let evals' = evals + reps * length alive in
      elim (leb (length alive) 1) [
        | true ↦ some (alive, evals, s)
        | false ↦ elim (leb max_reps reps' && length kept == 1) [
          | true ↦ some (kept, evals', m.1)
          | false ↦ halving_loop sort max_reps fuel kept reps' evals' m.1
        ]
      ]

  -- `successive_halving`; `none` is the exception of an empty list, or fuel that ran out.
  unfoldable pub successive_halving :
      (List Item → List Item) → ℕ → List Cfg → ℕ → ℕ → State → Option (ShResult × State)
  unfolding halving_loop
  successive_halving sort fuel [] min_reps max_reps s = none
  successive_halving sort fuel (c ∷ cs) min_reps max_reps s =
      elim (halving_loop sort max_reps fuel (map (λ c. record { cfg = c; score = t_zero }) (c ∷ cs))
        min_reps 0 s) [
          | none ↦ none
          | some ([], evals, s') ↦ none
          | some (it ∷ items, evals, s') ↦
              let m = measure it.cfg max_reps s' in
              some (record { best = it.cfg; best_score = m.0; total_evals = evals + max_reps }, m.1)
        ]

  -- The loop of `grid_search`.
  unfoldable pub grid_loop : ℕ → List Cfg → ShResult → State → ShResult × State
  grid_loop reps [] r s = (r, s)
  grid_loop reps (c ∷ cs) r s =
      let m = measure c reps s in
      let r' : ShResult = record r { total_evals = r.total_evals + reps } in
      grid_loop reps cs
        (if lt m.0 r.best_score then record r' { best = c; best_score = m.0 } else r') m.1

  -- `grid_search`; `blank` is the value-initialised configuration.
  unfoldable pub grid_search : Cfg → List Cfg → ℕ → State → ShResult × State
  unfolding grid_loop
  grid_search blank candidates reps s =
      grid_loop reps candidates (record { best = blank; best_score = t_1e18; total_evals = 0 }) s

  -- What `std::sort` is relied on for: it keeps the number of items, and only moves them.
  pub record Sorts (sort : List Item → List Item) : Type 1 where
    pub length-sort : (items : List Item) → length (sort items) ≡ length items
    pub All-sort : (P : Item → Type 0) (items : List Item) → All P items → All P (sort items)
