-- ===== src/Tests/Digests.antt =====
-- The digest of src/cache.cpp on the three bytes of `abc`, whose first eight digits are the published
-- ones, and keys of graphs.
use amp.Prelude.{
  ℕ, zero, suc, ◌≡◌, refl, ap, List, [], ◌∷◌, take, length, has, arith, false, sym, ◌∙◌, replicate,
}
use amp.Cache.Sha256.{fresh, update, hexdigest, CompileGraph}
use amp.Cache.Fingerprint.{IsPlain, key_text_injective}

digest_runs :
    take 8 (hexdigest (update (97 ∷ 98 ∷ 99 ∷ []) fresh))
    ≡ 98 ∷ 97 ∷ 55 ∷ 56 ∷ 49 ∷ 54 ∷ 98 ∷ 102 ∷ []
unfolding update hexdigest
digest_runs = refl

-- Numbers in strokes.
abbrev strokes : ℕ → List ℕ
strokes n = replicate n 49

length-strokes : (n : ℕ) → length (strokes n) ≡ n
length-strokes zero = refl
length-strokes (suc n) = ap suc (length-strokes n)

strokes_no_comma : (n : ℕ) → has 44 (strokes n) ≡ false
strokes_no_comma zero = refl
strokes_no_comma (suc n) = ground (arith, strokes_no_comma n)

abbrev graph : List ℕ → CompileGraph
graph dtype = record {
  op = 109 ∷ 109 ∷ [];
  shape = 2 ∷ 3 ∷ [];
  dtype = dtype;
  arch = 120 ∷ [];
  tune_cfg = [];
  runtime_ver = 49 ∷ 50 ∷ [];
}

graph-IsPlain : (dtype : List ℕ) → has 124 dtype ≡ false → IsPlain (graph dtype)
graph-IsPlain dtype h = record {
  op = refl;
  dtype = h;
  arch = refl;
  tune_cfg = refl;
  runtime_ver = refl;
}

key_text_injective_example : graph (98 ∷ []) ≡ graph (take 1 (98 ∷ 99 ∷ []))
key_text_injective_example =
    key_text_injective strokes strokes_no_comma
      (λ d e h. sym (length-strokes d) ∙ ap length h ∙ length-strokes e) (graph (98 ∷ []))
      (graph (take 1 (98 ∷ 99 ∷ []))) (graph-IsPlain (98 ∷ []) refl)
      (graph-IsPlain (take 1 (98 ∷ 99 ∷ [])) refl) refl
