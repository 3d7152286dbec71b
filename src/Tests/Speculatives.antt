-- ===== src/Tests/Speculatives.antt =====
-- `SpecDecodeEngine` and `medusa_verify` (src/speculative.cpp) with percents for floats, and a
-- generator that counts.
use amp.Prelude.{
  ℕ, suc, ◌+◌, ◌-◌, ◌*◌, ◌/◌, ◌%◌, ◌≤◌, ◌≡◌, refl, true, false, List, [], ◌∷◌, ◌++◌, none, some,
  take, map, min, ltb, leb, if◌then◌else◌, arith,
}
use amp.Speculative.{Env, u64, SpecConfig, TokenDist, SpecStepResult, Engine, init, argmax}
use amp.Speculative.Steps.{MedusaConfig, MedusaResult, verify_greedy, medusa_verify}
use amp.Speculative.Greedy.{targets, verify_greedy_lem}
use amp.Speculative.Medusa.{Passing, Stopping, medusa_verify_lem}

abbrev percent : Env
percent = record {
  Float = ℕ;
  Double = ℕ × ℕ;
  Rng = ℕ;
  f_zero = 0;
  f_one = 100;
  f_1e9 = 1;
  f_1e6 = 1;
  lt = ltb;
  le = leb;
  add = λ a b. a + b;
  sub = λ a b. a - b;
  div = λ a b. a * 100 / (b + 1);
  exp = λ a. a + 1;
  d_zero = (0, 1);
  ratio = λ a b. (a, b);
  uniform_real = λ r. (r % 100, r + 30);
  uniform_int = λ n r. (min n r, r + 1);
}

abbrev settings : SpecConfig percent
settings = record {
  num_speculative_tokens = 2;
  temperature = 100;
  greedy_verify = false;
  vocab_size = 3;
  seed = 20;
}

abbrev engine : Engine percent
engine = init percent (λ seed. seed) settings

-- The model is sure of one token.
abbrev sure : ℕ → TokenDist percent
sure t = record {
  logits = (if ltb t 1 then 90 else 5) ∷ (if ltb t 2 then 80 else 5) ∷ 50 ∷ [];
  sampled = t;
  cached = none;
}

abbrev even_odds : TokenDist percent
even_odds = record { logits = []; sampled = 0; cached = some (50 ∷ 50 ∷ 0 ∷ []) }

abbrev settled : ℕ → TokenDist percent
settled t = record { logits = []; sampled = t; cached = some (0 ∷ 100 ∷ 0 ∷ []) }

abbrev targets_of_three : List (TokenDist percent)
targets_of_three = sure 0 ∷ sure 1 ∷ sure 2 ∷ []

-- The second draft token is not the target's.
verify_greedy_runs : map (λ d. d.sampled) targets_of_three ≡ targets percent targets_of_three
unfolding argmax
verify_greedy_runs = refl

verify_greedy_lem_example :
    (e' : Engine percent) × (r : SpecStepResult percent) × (more : ℕ) × (bonus : ℕ) × (verify_greedy
        percent
        (0 ∷ 2 ∷ [])
        targets_of_three
        engine
      ≡ some (e', r))
    × (more ≤ 2)
    × (r.n_accepted ≡ more)
    × (r.accepted_tokens ≡ take more (0 ∷ 2 ∷ []))
    × (r.bonus_token ≡ some bonus)
    × (r.accepted_tokens ++ bonus ∷ [] ≡ take (suc more) (0 ∷ 1 ∷ 2 ∷ []))
    × (u64 e'.stats.accepted_tokens ≡ u64 (0 + more))
    × (u64 e'.stats.rejected_tokens ≡ u64 (0 + (2 - more)))
    × (e'.rng ≡ 20)
unfolding argmax
verify_greedy_lem_example =
    verify_greedy_lem percent (0 ∷ 2 ∷ []) targets_of_three engine (omega arith)

abbrev heads : MedusaConfig percent
heads = record {
  num_heads = 4;
  num_speculative_tokens = 4;
  tree_attention = true;
  acceptance_threshold = 40;
}

medusa_verify_lem_example :
    (r : MedusaResult) × (medusa_verify percent heads
        (0 ∷ 1 ∷ 2 ∷ [])
        (even_odds ∷ settled 1 ∷ even_odds ∷ [])
        100
        5
      ≡ some (r, 5))
    × (r.accepted_path ≡ take r.total_accepted (0 ∷ 1 ∷ 2 ∷ []))
    × (r.total_accepted ≤ 3)
    × Passing percent 40 100 r.total_accepted
        (0 ∷ 1 ∷ 2 ∷ [])
        (even_odds ∷ settled 1 ∷ even_odds ∷ [])
    × Stopping percent 40 100 4 r.total_accepted
        (0 ∷ 1 ∷ 2 ∷ [])
        (even_odds ∷ settled 1 ∷ even_odds ∷ [])
medusa_verify_lem_example =
    medusa_verify_lem percent heads (0 ∷ 1 ∷ 2 ∷ []) (even_odds ∷ settled 1 ∷ even_odds ∷ []) 100 5
      refl (refl, (refl, (refl, tt)))
