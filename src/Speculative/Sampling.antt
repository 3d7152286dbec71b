-- ===== src/Speculative/Sampling.antt =====
-- The sampling helpers of src/speculative.cpp and the probabilities of `TokenDist`.
use amp.Prelude.{
  ℕ, suc, ◌+◌, ◌-◌, ◌≤◌, ◌<◌, ◌≡◌, refl, ap, ◌∙◌, List, [], ◌∷◌, Option, none, some, length, map,
  subst, ◌==◌, arith, inl, inr, Bool-cases, Option-cases, length-map,
}
use amp.Speculative.{
  Env, TokenDist, softmax, probs, sum_f, sample_loop, sample_from, adjusted, sample_from_adjusted,
}

-- What the samplers may give on `n` probabilities: an index, or nothing where there is none.
abbrev pub IsIndex : ℕ → Option ℕ → Type 0
IsIndex n none = n ≡ 0
IsIndex n (some i) = i < n

module _ (env : Env) where
  abbrev InLoop : ℕ → ℕ → Option ℕ → Type 0
  InLoop i n none = Unit
  InLoop i n (some j) = (i ≤ j) × (j < i + n)

  InLoop-weaken : (i n : ℕ) (o : Option ℕ) → InLoop (i + 1) n o → InLoop i (suc n) o
  InLoop-weaken i n none h = tt
  InLoop-weaken i n (some j) h = omega (arith, h.0, h.1)

  sample_loop-InLoop :
      (r cum : env.Float) (i : ℕ) (ps : List env.Float)
      → InLoop i (length ps) (sample_loop env r cum i ps)
  unfolding sample_loop
  sample_loop-InLoop r cum i [] = tt
  sample_loop-InLoop r cum i (p ∷ ps) = elim (Bool-cases (env.le r (env.add cum p))) [
    | inl here ↦ rw (here, sample_loop) (omega arith, omega arith)
    | inr later ↦
        rw (later, sample_loop)
          (InLoop-weaken i (length ps) _ (sample_loop-InLoop r (env.add cum p) (i + 1) ps))
  ]

  -- `sample_from` gives an index of the vector, whatever the numbers are and however they round, and
  -- nothing on an empty one only.
  pub sample_from-IsIndex :
      (ps : List env.Float) (rng : env.Rng) → IsIndex (length ps) (sample_from env ps rng).0
  unfolding sample_from
  sample_from-IsIndex ps rng =
      let u = env.uniform_real rng in
      let h = sample_loop-InLoop u.0 env.f_zero 0 ps in
      elim (Option-cases (sample_loop env u.0 env.f_zero 0 ps)) [
        | inr (j, e) ↦
            let h' : InLoop 0 (length ps) (some j) = rw e at h in
            rw (e, sample_from) (omega (arith, h'.1))
        | inl e ↦ elim (Bool-cases (length ps == 0)) [
          | inl empty ↦ rw (e, empty, sample_from) (ground arith)
          | inr full ↦ rw (e, full, sample_from) (ground arith)
        ]
      ]

  length-adjusted : (ts ds : List env.Float) → length (adjusted env ts ds) ≡ length ts
  length-adjusted [] ds = refl
  length-adjusted (t ∷ ts) [] = ap suc (length-adjusted ts [])
  length-adjusted (t ∷ ts) (d ∷ ds) = ap suc (length-adjusted ts ds)

  -- So does `sample_from_adjusted` on a vector with an element, where the library's uniform integer
  -- stays in its range.
  pub sample_from_adjusted-IsIndex :
      ((n : ℕ) (rng : env.Rng) → (env.uniform_int n rng).0 ≤ n)
      → (p_target p_draft : List env.Float) (rng : env.Rng) → 0 < length p_target
      → IsIndex (length p_target) (sample_from_adjusted env p_target p_draft rng).0
  unfolding sample_from_adjusted
  sample_from_adjusted-IsIndex uniform p_target p_draft rng pos =
      let adj = adjusted env p_target p_draft in
      let sum = sum_f env env.f_zero adj in
      let scaled = map (λ a. env.div a sum) adj in
      let same : length scaled ≡ length p_target =
        length-map adj (λ a. env.div a sum) ∙ length-adjusted p_target p_draft in
      elim (Bool-cases (env.lt sum env.f_1e9)) [
        | inl tiny ↦
            rw (tiny, sample_from_adjusted) (omega (arith, uniform (length p_target - 1) rng))
        | inr big ↦
            rw (big, sample_from_adjusted)
              (subst (λ n. IsIndex n (sample_from env scaled rng).0) same
                (sample_from-IsIndex scaled rng))
      ]

  length-softmax :
      (temperature : env.Float) (ls : List env.Float)
      → length (softmax env temperature ls) ≡ length ls
  unfolding softmax
  length-softmax temperature [] = refl
  length-softmax temperature (l ∷ ls) = simp (length-map)

  -- `probs` gives a probability for each logit, where it has not been called before; and a second
  -- call gives the first one's vector, also at another temperature.
  pub probs_cached :
      (temperature other : env.Float) (d : TokenDist env)
      → d.cached ≡ none
      → (length (probs env temperature d).1 ≡ length d.logits)
        × (probs env other (probs env temperature d).0 ≡ probs env temperature d)
  unfolding probs
  probs_cached temperature other d fresh =
      let ps = softmax env temperature d.logits in
      let once : probs env temperature d ≡ (record d { cached = some ps }, ps) =
        rw (fresh, probs) refl in
      rw once (length-softmax temperature d.logits, refl)
