-- ===== src/Speculative/Verify.antt =====
-- `SpecDecodeEngine::verify` (src/speculative.cpp): what the rejection sampling loop leaves behind.
use amp.Prelude.{
  ℕ, ◌+◌, ◌-◌, ◌≤◌, ◌<◌, ◌≡◌, List, ◌++◌, Option, none, some, if◌then◌else◌, length, take, ltb,
}
use amp.Speculative.{Env, u64, TokenDist, SpecStepResult, Engine, probs}

module _ (env : Env) (vocab : ℕ) where
  -- A distribution gives a probability for each token of the vocabulary.
  abbrev pub Covers : env.Float → TokenDist env → Type 0
  Covers temperature t = length (probs env temperature t).1 ≡ vocab

  -- From the state `e` and the result `r`, `k` draft tokens end so.
  pub record Verified (k : ℕ) (draft : List ℕ) (e e' : Engine env) (r r' : SpecStepResult env)
      : Type 0 where
    pub more : ℕ
    pub bonus : ℕ
    pub within : more ≤ k
    pub n_accepted : r'.n_accepted ≡ r.n_accepted + more
    pub accepted : r'.accepted_tokens ≡ r.accepted_tokens ++ take more draft
    pub drawn : r'.bonus_token ≡ some bonus
    pub in_vocabulary : bonus < vocab
    pub counted_accepted : u64 e'.stats.accepted_tokens ≡ u64 (e.stats.accepted_tokens + more)
    pub counted_rejected : u64 e'.stats.rejected_tokens ≡ u64 (e.stats.rejected_tokens + (k - more))
    pub counted_draft : e'.stats.draft_tokens ≡ e.stats.draft_tokens
    pub rate : r'.acceptance_rate ≡ (
        if ltb 0 e'.stats.draft_tokens
        then env.ratio e'.stats.accepted_tokens e'.stats.draft_tokens
        else env.d_zero)

  abbrev Ends :
      ℕ
      → List ℕ
      → Engine env
      → SpecStepResult env
      → Option (Engine env × SpecStepResult env)
      → Type 0
  Ends k draft e r none = ⊥
  Ends k draft e r (some (e', r')) = Verified k draft e e' r r'
