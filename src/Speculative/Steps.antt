-- ===== src/Speculative/Steps.antt =====
-- `verify`, `verify_greedy` and `medusa_verify` of src/speculative.cpp. The loops go over the draft
-- and the distributions together; `none` is a read past the end of a vector.
use amp.Prelude.{
  ℕ, zero, suc, ◌+◌, Bool, true, false, List, [], ◌∷◌, ◌++◌, Option, none, some, if◌then◌else◌,
  length, get_or, ltb, ◌==◌,
}
use amp.Speculative.{
  Env, TokenDist, SpecStepResult, Engine, min_f, argmax, probs, sample_from, sample_from_adjusted,
  accept, count_accept, count_reject, count_step, empty_result,
}

-- `struct MedusaResult`
pub record MedusaResult : Type 0 where
  pub accepted_path : List ℕ
  pub total_accepted : ℕ

module _ (env : Env) where
  open env use {Float, Rng, f_zero, f_one, f_1e9, lt, le, add, div, d_zero, ratio, uniform_real}

  -- What the label `done` of `verify` returns.
  abbrev pub finish : Engine env → SpecStepResult env → Engine env × SpecStepResult env
  finish e r = (
    e,
    record r {
      acceptance_rate =
          if ltb 0 e.stats.draft_tokens
          then ratio e.stats.accepted_tokens e.stats.draft_tokens
          else d_zero;
    },
  )

  -- The probability that a draft token `x` is accepted.
  abbrev pub accept_prob : ℕ → List Float → List Float → Float
  accept_prob x p_t p_d =
      min_f env f_one (div (get_or p_t x f_zero) (add (get_or p_d x f_1e9) f_1e9))

  -- The loop of `verify`.
  unfoldable pub verify_loop :
      List ℕ
      → List (TokenDist env)
      → List (TokenDist env)
      → Engine env
      → SpecStepResult env
      → Option (Engine env × SpecStepResult env)
  verify_loop [] draft_dists [] e r = none
  verify_loop [] draft_dists (t ∷ ts) e r =
      let p_t = (probs env e.cfg.temperature t).1 in
      let s = sample_from env p_t e.rng in
      some (finish (record e { rng = s.1 }) (record r { bonus_token = s.0 }))
  verify_loop (x ∷ xs) [] target_dists e r = none
  verify_loop (x ∷ xs) (d ∷ ds) [] e r = none
  verify_loop (x ∷ xs) (d ∷ ds) (t ∷ ts) e r =
      let p_t = (probs env e.cfg.temperature t).1 in
      let p_d = (probs env e.cfg.temperature d).1 in
      let u = uniform_real e.rng in
      let e' = record e { rng = u.1 } in
      let s = sample_from_adjusted env p_t p_d u.1 in
      elim (le u.0 (accept_prob x p_t p_d)) [
        | true ↦ verify_loop xs ds ts (count_accept env e') (accept env x r)
        | false ↦ some (
            finish (count_reject env (length (x ∷ xs)) (record e { rng = s.1 }))
              (record r { bonus_token = s.0 }))
      ]

  -- `SpecDecodeEngine::verify`
  unfoldable pub verify :
      List ℕ
      → List (TokenDist env)
      → List (TokenDist env)
      → Engine env
      → Option (Engine env × SpecStepResult env)
  unfolding verify_loop
  verify draft_tokens draft_dists target_dists e =
      verify_loop draft_tokens draft_dists target_dists (count_step env (length draft_tokens) e)
        (empty_result env)

  -- The loop of `verify_greedy`.
  unfoldable pub greedy_loop :
      List ℕ
      → List (TokenDist env)
      → Engine env
      → SpecStepResult env
      → Option (Engine env × SpecStepResult env)
  greedy_loop [] [] e r = none
  greedy_loop [] (t ∷ ts) e r = some (e, record r { bonus_token = some (argmax env t.logits) })
  greedy_loop (x ∷ xs) [] e r = none
  greedy_loop (x ∷ xs) (t ∷ ts) e r =
      let target_tok = argmax env t.logits in
      elim (x == target_tok) [
        | true ↦ greedy_loop xs ts (count_accept env e) (accept env x r)
        | false ↦
            some (count_reject env (length (x ∷ xs)) e, record r { bonus_token = some target_tok })
      ]

  -- `SpecDecodeEngine::verify_greedy`
  unfoldable pub verify_greedy :
      List ℕ → List (TokenDist env) → Engine env → Option (Engine env × SpecStepResult env)
  unfolding greedy_loop
  verify_greedy draft_tokens target_dists e =
      greedy_loop draft_tokens target_dists (count_step env (length draft_tokens) e)
        (empty_result env)

  -- `struct MedusaConfig`
  pub record MedusaConfig : Type 0 where
    pub num_heads : ℕ
    pub num_speculative_tokens : ℕ
    pub tree_attention : Bool
    pub acceptance_threshold : Float

  -- The test of `medusa_verify` on a candidate of probability `pt`, and the generator after it.
  abbrev pub medusa_accepts : Float → Float → Rng → Bool × Rng
  medusa_accepts threshold pt rng =
      let u = uniform_real rng in
      if lt f_zero threshold then (le threshold pt, rng) else (le u.0 pt, u.1)

  -- Whether `TokenDist::probs` has something to give: on empty logits without a cached result it
  -- dereferences the end that `max_element` returns.
  abbrev pub has_probs : TokenDist env → Bool
  has_probs t = elim t.cached [ some ps ↦ true | none ↦ ltb 0 (length t.logits) ]

  -- The loop of `medusa_verify` with `heads` heads to go; `none` is a distribution without logits.
  unfoldable pub medusa_loop :
      ℕ
      → Float
      → Float
      → List ℕ
      → List (TokenDist env)
      → Rng
      → MedusaResult
      → Option (MedusaResult × Rng)
  medusa_loop zero threshold temperature cands dists rng r = some (r, rng)
  medusa_loop (suc heads) threshold temperature [] dists rng r = some (r, rng)
  medusa_loop (suc heads) threshold temperature (c ∷ cs) [] rng r = some (r, rng)
  medusa_loop (suc heads) threshold temperature (c ∷ cs) (t ∷ ts) rng r =
      let pt = get_or (probs env temperature t).1 c f_zero in
      let a = medusa_accepts threshold pt rng in
      elim (has_probs t) [
        | false ↦ none
        | true ↦ elim a.0 [
          | true ↦ medusa_loop heads threshold temperature cs ts a.1 (record {
            accepted_path = r.accepted_path ++ c ∷ [];
            total_accepted = r.total_accepted + 1;
          })
          | false ↦ some (r, a.1)
        ]
      ]

  -- `medusa_verify`, which reads neither `tree_attention` nor `num_speculative_tokens`.
  unfoldable pub medusa_verify :
      MedusaConfig → List ℕ → List (TokenDist env) → Float → Rng → Option (MedusaResult × Rng)
  unfolding medusa_loop
  medusa_verify cfg candidates target_dists temperature rng =
      medusa_loop cfg.num_heads cfg.acceptance_threshold temperature candidates target_dists rng
        (record { accepted_path = []; total_accepted = 0 })
