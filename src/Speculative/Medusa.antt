-- ===== src/Speculative/Medusa.antt =====
-- `medusa_verify` (src/speculative.cpp): the chain of accepted candidates.
use amp.Prelude.{
  ℕ, zero, suc, ◌+◌, ◌≤◌, ◌≡◌, refl, sym, ap, ◌∙◌, true, false, List, [], ◌∷◌, ◌++◌, length, take,
  get_or, min, some, subst, All, arith, inl, inr, Bool-cases,
}
use mathlib.Core.List.{append-nil, append_assoc}
use amp.Speculative.{Env, TokenDist, probs}
use amp.Speculative.Steps.{
  MedusaConfig, MedusaResult, has_probs, medusa_accepts, medusa_loop, medusa_verify,
}

module _ (env : Env) where
  -- The first `n` candidates reach the threshold.
  abbrev pub Passing : env.Float → env.Float → ℕ → List ℕ → List (TokenDist env) → Type 0
  Passing threshold temperature zero cs ts = Unit
  Passing threshold temperature (suc n) [] ts = ⊥
  Passing threshold temperature (suc n) (c ∷ cs) [] = ⊥
  Passing threshold temperature (suc n) (c ∷ cs) (t ∷ ts) =
      (env.le threshold (get_or (probs env temperature t).1 c env.f_zero) ≡ true)
      × Passing threshold temperature n cs ts

  -- The candidate after the first `n`, where there is one for a head, does not.
  abbrev pub Stopping : env.Float → env.Float → ℕ → ℕ → List ℕ → List (TokenDist env) → Type 0
  Stopping threshold temperature zero n cs ts = Unit
  Stopping threshold temperature (suc heads) n [] ts = Unit
  Stopping threshold temperature (suc heads) n (c ∷ cs) [] = Unit
  Stopping threshold temperature (suc heads) zero (c ∷ cs) (t ∷ ts) =
      env.le threshold (get_or (probs env temperature t).1 c env.f_zero) ≡ false
  Stopping threshold temperature (suc heads) (suc n) (c ∷ cs) (t ∷ ts) =
      Stopping threshold temperature heads n cs ts

  record Chain (threshold temperature : env.Float) (heads : ℕ) (cs : List ℕ)
      (ts : List (TokenDist env)) (rng rng' : env.Rng) (r r' : MedusaResult) : Type 0 where
    more : ℕ
    total : r'.total_accepted ≡ r.total_accepted + more
    path : r'.accepted_path ≡ r.accepted_path ++ take more cs
    within : more ≤ min heads (min (length cs) (length ts))
    passing : Passing threshold temperature more cs ts
    stopping : Stopping threshold temperature heads more cs ts
    same_rng : rng' ≡ rng

  module _ (threshold temperature : env.Float) (positive : env.lt env.f_zero threshold ≡ true) where
    stop :
        (heads : ℕ) (cs : List ℕ) (ts : List (TokenDist env)) (rng rng' : env.Rng)
        (r : MedusaResult)
        → Stopping threshold temperature heads 0 cs ts
        → rng' ≡ rng
        → Chain threshold temperature heads cs ts rng rng' r r
    stop heads cs ts rng rng' r h same = record {
      more = 0;
      total = omega arith;
      path = sym (append-nil r.accepted_path);
      within = omega arith;
      passing = tt;
      stopping = h;
      same_rng = same;
    }

    medusa_loop-Chain :
        (heads : ℕ) (cs : List ℕ) (ts : List (TokenDist env)) (rng : env.Rng) (r : MedusaResult)
        → All (λ t. has_probs env t ≡ true) ts
        → (r' : MedusaResult) × (rng' : env.Rng) × (medusa_loop env heads threshold temperature cs
              ts rng r
            ≡ some (r', rng'))
          × Chain threshold temperature heads cs ts rng rng' r r'
    unfolding medusa_loop
    medusa_loop-Chain zero cs ts rng r given = (r, rng, refl, stop zero cs ts rng rng r tt refl)
    medusa_loop-Chain (suc heads) [] ts rng r given =
        (r, rng, refl, stop (suc heads) [] ts rng rng r tt refl)
    medusa_loop-Chain (suc heads) (c ∷ cs) [] rng r given =
        (r, rng, refl, stop (suc heads) (c ∷ cs) [] rng rng r tt refl)
    medusa_loop-Chain (suc heads) (c ∷ cs) (t ∷ ts) rng r given =
        let pt = get_or (probs env temperature t).1 c env.f_zero in
        let drawn : medusa_accepts env threshold pt rng ≡ (env.le threshold pt, rng) =
          rw positive refl in
        elim (Bool-cases (env.le threshold pt)) [
          | inr fails ↦
              rw (given.0, positive, fails, medusa_loop)
                (r, _, refl, stop (suc heads) (c ∷ cs) (t ∷ ts) rng _ r fails (ap (λ a. a.1) drawn))
          | inl passes ↦
              let r1 : MedusaResult = record {
                accepted_path = r.accepted_path ++ c ∷ [];
                total_accepted = r.total_accepted + 1;
              } in
              let (r', rng', runs, g) =
                medusa_loop-Chain heads cs ts (medusa_accepts env threshold pt rng).1 r1 given.1 in
              rw (given.0, positive, passes, medusa_loop)
                (
                  r',
                  rng',
                  runs,
                  record {
                    more = suc g.more;
                    total = omega (arith, g.total);
                    path = g.path ∙ append_assoc r.accepted_path (c ∷ []) (take g.more cs);
                    within = omega (arith, g.within);
                    passing = (passes, g.passing);
                    stopping = g.stopping;
                    same_rng = g.same_rng ∙ ap (λ a. a.1) drawn;
                  },
                )
        ]

  -- With a positive threshold, and logits in each distribution, medusa_verify returns, whatever
  -- tree_attention says, the longest linear chain of candidates from the first, for its heads and
  -- distributions, whose probability reaches the threshold, and draws no random number.
  pub medusa_verify_lem :
      (cfg : MedusaConfig env) (cs : List ℕ) (ts : List (TokenDist env)) (temperature : env.Float)
      (rng : env.Rng)
      → env.lt env.f_zero cfg.acceptance_threshold ≡ true
      → All (λ t. has_probs env t ≡ true) ts
      → (r : MedusaResult) × (medusa_verify env cfg cs ts temperature rng ≡ some (r, rng))
        × (r.accepted_path ≡ take r.total_accepted cs)
        × (r.total_accepted ≤ min cfg.num_heads (min (length cs) (length ts)))
        × Passing cfg.acceptance_threshold temperature r.total_accepted cs ts
        × Stopping cfg.acceptance_threshold temperature cfg.num_heads r.total_accepted cs ts
  unfolding medusa_verify
  medusa_verify_lem cfg cs ts temperature rng positive given =
      let threshold = cfg.acceptance_threshold in
      let none_yet : MedusaResult = record { accepted_path = []; total_accepted = 0 } in
      let (r, rng', runs, g) =
        medusa_loop-Chain threshold temperature positive cfg.num_heads cs ts rng none_yet given in
      let n : r.total_accepted ≡ g.more = omega (arith, g.total) in
      (
        r,
        runs ∙ ap (λ q. some (r, q)) g.same_rng,
        g.path ∙ ap (λ m. take m cs) (sym n),
        omega (arith, g.within),
        subst (λ m. Passing threshold temperature m cs ts) (sym n) g.passing,
        subst (λ m. Stopping threshold temperature cfg.num_heads m cs ts) (sym n) g.stopping,
      )
