-- ===== src/Speculative.antt =====
-- include/speculative.hpp and src/speculative.cpp: the acceptance logic of speculative decoding.
-- The machine's floats and the standard library's random numbers are parameters. A token is not
-- negative, so that it indexes a vector; a read past the end, which `assert` excludes, is `none`.
pub mod Steps
pub mod Greedy
pub mod Verify
pub mod Sampling
pub mod Medusa
use amp.Prelude.{
  ℕ, zero, suc, ◌+◌, ◌-◌, ◌%◌, ◌^◌, ◌≡◌, Bool, true, false, List, [], ◌∷◌, ◌++◌, Option, none, some,
  if◌then◌else◌, length, get_or, map, ltb, ◌==◌,
}

-- `float`, `double` and `<random>`: what the code uses of them.
pub record Env : Type 1 where
  pub Float : Type 0
  pub Double : Type 0
  pub Rng : Type 0
  pub f_zero : Float
  pub f_one : Float
  pub f_1e9 : Float
  pub f_1e6 : Float
  pub lt : Float → Float → Bool
  pub le : Float → Float → Bool
  pub add : Float → Float → Float
  pub sub : Float → Float → Float
  pub div : Float → Float → Float
  pub exp : Float → Float
  pub d_zero : Double
  pub ratio : ℕ → ℕ → Double
  pub uniform_real : Rng → Float × Rng
  pub uniform_int : ℕ → Rng → ℕ × Rng

abbrev pub u64 : ℕ → ℕ
u64 n = n % 2 ^ 64

-- `SpecDecodeEngine::Stats`
pub record Stats : Type 0 where
  pub steps : ℕ
  pub draft_tokens : ℕ
  pub accepted_tokens : ℕ
  pub rejected_tokens : ℕ

module _ (env : Env) where
  open env use {
    Float, Double, Rng, f_zero, f_one, f_1e9, f_1e6, lt, le, add, sub, div, exp, d_zero, ratio,
    uniform_real, uniform_int,
  }

  -- `struct SpecConfig`
  pub record SpecConfig : Type 0 where
    pub num_speculative_tokens : ℕ
    pub temperature : Float
    pub greedy_verify : Bool
    pub vocab_size : ℕ
    pub seed : ℕ

  -- `struct TokenDist`; `none` is `probs_computed_` that is false.
  pub record TokenDist : Type 0 where
    pub logits : List Float
    pub sampled : ℕ
    pub cached : Option (List Float)

  -- `struct SpecStepResult`; a `bonus_token` of -1 is `none`.
  pub record SpecStepResult : Type 0 where
    pub accepted_tokens : List ℕ
    pub bonus_token : Option ℕ
    pub n_accepted : ℕ
    pub acceptance_rate : Double

  -- `SpecStepResult::total_new`
  abbrev pub total_new : SpecStepResult → ℕ
  total_new r = r.n_accepted + elim r.bonus_token [ none ↦ 0 | some b ↦ 1 ]

  -- `class SpecDecodeEngine`
  pub record Engine : Type 0 where
    pub cfg : SpecConfig
    pub rng : Rng
    pub stats : Stats

  -- `std::max` and `std::min`
  abbrev pub max_f : Float → Float → Float
  max_f a b = if lt a b then b else a

  abbrev pub min_f : Float → Float → Float
  min_f a b = if lt b a then b else a

  -- `std::max_element`, from the largest so far: its place and its value.
  unfoldable pub max_from : ℕ → Float → ℕ → List Float → ℕ × Float
  max_from best v i [] = (best, v)
  max_from best v i (x ∷ xs) =
      max_from (if lt v x then i else best) (if lt v x then x else v) (i + 1) xs

  -- `max_element(begin, end) - begin`: 0 on an empty vector.
  unfoldable pub argmax : List Float → ℕ
  unfolding max_from
  argmax [] = 0
  argmax (x ∷ xs) = (max_from 0 x 1 xs).0

  abbrev pub sum_f : Float → List Float → Float
  sum_f acc [] = acc
  sum_f acc (x ∷ xs) = sum_f (add acc x) xs

  -- The softmax of `TokenDist::probs`. On empty logits the source dereferences the end that
  -- `max_element` returns, and what is given here stands for no behaviour of it: `medusa_verify` of
  -- the model is `none` then, and `verify` is said to do something only of logits that are not empty.
  unfoldable pub softmax : Float → List Float → List Float
  unfolding max_from
  softmax temperature [] = []
  softmax temperature (l ∷ ls) =
      let max_l = (max_from 0 l 1 ls).1 in
      let exps = map (λ x. exp (div (sub x max_l) (max_f temperature f_1e6))) (l ∷ ls) in
      let total = sum_f f_zero exps in map (λ p. div p total) exps

  -- `TokenDist::probs`: the distribution with its cache, and the probabilities.
  unfoldable pub probs : Float → TokenDist → TokenDist × List Float
  unfolding softmax
  probs temperature d = elim d.cached [
    | some ps ↦ (d, ps)
    | none ↦
        (record d { cached = some (softmax temperature d.logits) }, softmax temperature d.logits)
  ]

  -- `SpecDecodeEngine::SpecDecodeEngine`; `seeded` is the generator that the seed gives.
  abbrev pub init : (ℕ → Rng) → SpecConfig → Engine
  init seeded cfg = record {
    cfg = cfg;
    rng = seeded cfg.seed;
    stats = record { steps = 0; draft_tokens = 0; accepted_tokens = 0; rejected_tokens = 0 };
  }

  -- The loop of `sample_from`, at index `i` of the vector.
  unfoldable pub sample_loop : Float → Float → ℕ → List Float → Option ℕ
  sample_loop r cum i [] = none
  sample_loop r cum i (p ∷ ps) =
      let rest = sample_loop r (add cum p) (i + 1) ps in if le r (add cum p) then some i else rest

  -- `SpecDecodeEngine::sample_from`; `none` is the -1 of an empty vector.
  unfoldable pub sample_from : List Float → Rng → Option ℕ × Rng
  unfolding sample_loop
  sample_from ps rng =
      let u = uniform_real rng in
      elim (sample_loop u.0 f_zero 0 ps) [
        | some i ↦ (some i, u.1)
        | none ↦ (if length ps == 0 then none else some (length ps - 1), u.1)
      ]

  -- The loop of `sample_from_adjusted`: the difference where it is positive, and the sum.
  abbrev pub adjusted : List Float → List Float → List Float
  adjusted [] ds = []
  adjusted (t ∷ ts) [] = max_f f_zero (sub t f_zero) ∷ adjusted ts []
  adjusted (t ∷ ts) (d ∷ ds) = max_f f_zero (sub t d) ∷ adjusted ts ds

  -- `SpecDecodeEngine::sample_from_adjusted`
  unfoldable pub sample_from_adjusted : List Float → List Float → Rng → Option ℕ × Rng
  unfolding sample_from
  sample_from_adjusted p_target p_draft rng =
      let adj = adjusted p_target p_draft in
      let sum = sum_f f_zero adj in
      let u = uniform_int (length p_target - 1) rng in
      if lt sum f_1e9 then (some u.0, u.1) else sample_from (map (λ a. div a sum) adj) rng

  -- The counters and the result when `x` is accepted.
  abbrev pub accept : ℕ → SpecStepResult → SpecStepResult
  accept x r = record r {
    accepted_tokens = r.accepted_tokens ++ x ∷ [];
    n_accepted = r.n_accepted + 1;
  }

  abbrev pub count_accept : Engine → Engine
  count_accept e = record e {
    stats = record (e.stats) { accepted_tokens = u64 (e.stats.accepted_tokens + 1) };
  }

  abbrev pub count_reject : ℕ → Engine → Engine
  count_reject n e = record e {
    stats = record (e.stats) { rejected_tokens = u64 (e.stats.rejected_tokens + n) };
  }

  abbrev pub count_step : ℕ → Engine → Engine
  count_step k e = record e {
    stats = record (e.stats) {
      steps = u64 (e.stats.steps + 1);
      draft_tokens = u64 (e.stats.draft_tokens + k);
    };
  }

  abbrev pub empty_result : SpecStepResult
  empty_result = record {
    accepted_tokens = [];
    bonus_token = none;
    n_accepted = 0;
    acceptance_rate = d_zero;
  }
