-- ===== src/Speculative/Greedy.antt =====
-- `SpecDecodeEngine::verify_greedy` (src/speculative.cpp) yields what the target model alone would.
use amp.Prelude.{
  ℕ, suc, ◌+◌, ◌-◌, ◌≤◌, ◌<◌, ◌≡◌, refl, sym, ◌∙◌, List, [], ◌∷◌, ◌++◌, Option, none, some, length,
  take, map, ◌==◌, arith, inl, inr, Bool-cases, Option-cases, ==_iff,
}
use mathlib.Core.List.{append-nil, append_assoc}
use amp.Speculative.{
  Env, u64, TokenDist, SpecStepResult, Engine, argmax, accept, count_accept, count_step,
  empty_result,
}
use amp.Speculative.Steps.{greedy_loop, verify_greedy}

module _ (env : Env) where
  -- The tokens that the target model picks by itself.
  abbrev pub targets : List (TokenDist env) → List ℕ
  targets = map (λ t. argmax env t.logits)

  -- From the state `e` and the result `r`, `k` draft tokens and the distributions `ts` end so.
  pub record Greedy (k : ℕ) (ts : List (TokenDist env)) (draft : List ℕ) (e e' : Engine env)
      (r r' : SpecStepResult env) : Type 0 where
    pub more : ℕ
    pub bonus : ℕ
    pub within : more ≤ k
    pub n_accepted : r'.n_accepted ≡ r.n_accepted + more
    pub accepted : r'.accepted_tokens ≡ r.accepted_tokens ++ take more draft
    pub picked : r'.bonus_token ≡ some bonus
    pub matched : take more draft ++ bonus ∷ [] ≡ take (suc more) (targets ts)
    pub counted_accepted : u64 e'.stats.accepted_tokens ≡ u64 (e.stats.accepted_tokens + more)
    pub counted_rejected : u64 e'.stats.rejected_tokens ≡ u64 (e.stats.rejected_tokens + (k - more))
    pub rng : e'.rng ≡ e.rng

  abbrev Ends :
      ℕ
      → List (TokenDist env)
      → List ℕ
      → Engine env
      → SpecStepResult env
      → Option (Engine env × SpecStepResult env)
      → Type 0
  Ends k ts draft e r none = ⊥
  Ends k ts draft e r (some (e', r')) = Greedy k ts draft e e' r r'

  Greedy-accept :
      (k x : ℕ) (t : TokenDist env) (ts : List (TokenDist env)) (xs : List ℕ) (e e' : Engine env)
      (r r' : SpecStepResult env)
      → x ≡ argmax env t.logits
      → Greedy k ts xs (count_accept env e) e' (accept env x r) r'
      → Greedy (suc k) (t ∷ ts) (x ∷ xs) e e' r r'
  Greedy-accept k x t ts xs e e' r r' same g = record {
    more = suc g.more;
    bonus = g.bonus;
    within = omega (arith, g.within);
    n_accepted = omega (arith, g.n_accepted);
    accepted = g.accepted ∙ append_assoc r.accepted_tokens (x ∷ []) (take g.more xs);
    picked = g.picked;
    matched = rw (same, g.matched) refl;
    counted_accepted = omega (arith, g.counted_accepted);
    counted_rejected = omega (arith, g.counted_rejected, g.within);
    rng = g.rng;
  }

  Ends-accept :
      (k x : ℕ) (t : TokenDist env) (ts : List (TokenDist env)) (xs : List ℕ) (e : Engine env)
      (r : SpecStepResult env) (o : Option (Engine env × SpecStepResult env))
      → x ≡ argmax env t.logits
      → Ends k ts xs (count_accept env e) (accept env x r) o
      → Ends (suc k) (t ∷ ts) (x ∷ xs) e r o
  Ends-accept k x t ts xs e r none same h = h
  Ends-accept k x t ts xs e r (some (e', r')) same h = Greedy-accept k x t ts xs e e' r r' same h

  greedy_loop-Ends :
      (draft : List ℕ) (ts : List (TokenDist env)) (e : Engine env) (r : SpecStepResult env)
      → length draft < length ts
      → Ends (length draft) ts draft e r (greedy_loop env draft ts e r)
  unfolding greedy_loop
  greedy_loop-Ends [] [] e r h = absurd (omega arith)
  greedy_loop-Ends [] (t ∷ ts) e r h = record {
    more = 0;
    bonus = argmax env t.logits;
    within = omega arith;
    n_accepted = omega arith;
    accepted = sym (append-nil r.accepted_tokens);
    picked = refl;
    matched = refl;
    counted_accepted = omega arith;
    counted_rejected = omega arith;
    rng = refl;
  }
  greedy_loop-Ends (x ∷ xs) [] e r h = absurd (omega arith)
  greedy_loop-Ends (x ∷ xs) (t ∷ ts) e r h = elim (Bool-cases (x == argmax env t.logits)) [
    | inr other ↦
        rw (other, greedy_loop)
          (record {
            more = 0;
            bonus = argmax env t.logits;
            within = omega arith;
            n_accepted = omega arith;
            accepted = sym (append-nil r.accepted_tokens);
            picked = refl;
            matched = refl;
            counted_accepted = omega arith;
            counted_rejected = omega arith;
            rng = refl;
          })
    | inl same ↦
        let ih = greedy_loop-Ends xs ts (count_accept env e) (accept env x r) (omega arith) in
        rw (same, greedy_loop) (Ends-accept (length xs) x t ts xs e r _ ((==_iff _ _).0 same) ih)
  ]

  -- With a distribution more than there are draft tokens, `verify_greedy` returns; the tokens that it
  -- accepts, a prefix of the draft, and the bonus token are those that the target model picks by
  -- itself; the draft tokens are counted as accepted or rejected, and no random number is drawn.
  pub verify_greedy_lem :
      (draft : List ℕ) (ts : List (TokenDist env)) (e : Engine env)
      → length draft < length ts
      → (e' : Engine env) × (r : SpecStepResult env) × (more : ℕ) × (bonus : ℕ) × (verify_greedy env
            draft ts e
          ≡ some (e', r))
        × (more ≤ length draft)
        × (r.n_accepted ≡ more)
        × (r.accepted_tokens ≡ take more draft)
        × (r.bonus_token ≡ some bonus)
        × (r.accepted_tokens ++ bonus ∷ [] ≡ take (suc more) (targets ts))
        × (u64 e'.stats.accepted_tokens ≡ u64 (e.stats.accepted_tokens + more))
        × (u64 e'.stats.rejected_tokens ≡ u64 (e.stats.rejected_tokens + (length draft - more)))
        × (e'.rng ≡ e.rng)
  unfolding verify_greedy
  verify_greedy_lem draft ts e h =
      let start = count_step env (length draft) e in
      let ends = greedy_loop-Ends draft ts start (empty_result env) h in
      elim (Option-cases (greedy_loop env draft ts start (empty_result env))) [
        | inl gone ↦ absurd (rw gone at ends)
        | inr ((e', r), got) ↦
            let g : Greedy (length draft) ts draft start e' (empty_result env) r = rw got at ends in
            (
              e',
              r,
              g.more,
              g.bonus,
              rw (got, verify_greedy) refl,
              g.within,
              omega (arith, g.n_accepted),
              g.accepted,
              g.picked,
              rw g.accepted g.matched,
              g.counted_accepted,
              g.counted_rejected,
              g.rng,
            )
      ]
