-- ===== src/Cache/Fingerprint.antt =====
-- The text of `CacheStore::fingerprint` (src/cache.cpp) tells apart graphs whose fields have no `|`.
use amp.Prelude.{ℕ, ◌≡◌, ◌≢◌, refl, sym, ap, false, List, [], ◌∷◌, ◌++◌, length, take, arith, has}
use mathlib.Core.List.{append_assoc}
use amp.Cache.Sha256.{CompileGraph, dims, key_text, fingerprint, hexdigest, update, fresh}

head_of : ℕ → List ℕ → ℕ
head_of d [] = d
head_of d (x ∷ xs) = x

tail_of : List ℕ → List ℕ
tail_of [] = []
tail_of (x ∷ xs) = xs

cons_injective : (x y : ℕ) (xs ys : List ℕ) → x ∷ xs ≡ y ∷ ys → (x ≡ y) × (xs ≡ ys)
unfolding head_of tail_of
cons_injective x y xs ys e = (ap (head_of 0) e, ap tail_of e)

-- What stands before the first `mark` is read off the whole.
split_at_mark :
    (mark : ℕ) (xs ys rest rest' : List ℕ)
    → has mark xs ≡ false
    → has mark ys ≡ false
    → xs ++ mark ∷ rest ≡ ys ++ mark ∷ rest'
    → (xs ≡ ys) × (rest ≡ rest')
split_at_mark mark [] [] rest rest' hx hy e = (refl, (cons_injective mark mark rest rest' e).1)
split_at_mark mark [] (y ∷ ys) rest rest' hx hy e =
    let same = (cons_injective mark y rest (ys ++ mark ∷ rest') e).0 in
    absurd (ground (arith, same))
split_at_mark mark (x ∷ xs) [] rest rest' hx hy e =
    let same = (cons_injective x mark (xs ++ mark ∷ rest) rest' e).0 in
    absurd (ground (arith, same))
split_at_mark mark (x ∷ xs) (y ∷ ys) rest rest' hx hy e =
    let (same, more) = cons_injective x y (xs ++ mark ∷ rest) (ys ++ mark ∷ rest') e in
    let (here, there) =
      split_at_mark mark xs ys rest rest' (ground (arith, hx)) (ground (arith, hy)) more in
    (cc (same, here), there)

mark_stays : (mark : ℕ) (xs rest : List ℕ) → [] ≢ xs ++ mark ∷ rest
mark_stays mark [] rest e = absurd (let gone = ap length e in omega (arith, gone))
mark_stays mark (x ∷ xs) rest e = absurd (let gone = ap length e in omega (arith, gone))

-- No field has the mark `|`.
pub record IsPlain (g : CompileGraph) : Type 0 where
  pub op : has 124 g.op ≡ false
  pub dtype : has 124 g.dtype ≡ false
  pub arch : has 124 g.arch ≡ false
  pub tune_cfg : has 124 g.tune_cfg ≡ false
  pub runtime_ver : has 124 g.runtime_ver ≡ false

module _ (show : ℕ → List ℕ) (no_comma : (d : ℕ) → has 44 (show d) ≡ false)
    (distinct : (d e : ℕ) → show d ≡ show e → d ≡ e) where
  dims_injective : (ds es : List ℕ) → dims show ds ≡ dims show es → ds ≡ es
  dims_injective [] [] h = refl
  dims_injective [] (e ∷ es) h = absurd (mark_stays 44 (show e) (dims show es) h)
  dims_injective (d ∷ ds) [] h = absurd (mark_stays 44 (show d) (dims show ds) (sym h))
  dims_injective (d ∷ ds) (e ∷ es) h =
      let (here, there) =
        split_at_mark 44 (show d) (show e) (dims show ds) (dims show es) (no_comma d) (no_comma e)
          h in
      let first : d ≡ e = distinct d e here in
      let more : ds ≡ es = dims_injective ds es there in cc (first, more)

  -- Graphs whose fields have no `|` are told apart by the text that is hashed, where different
  -- numbers are printed differently and without a comma.
  pub key_text_injective :
      (g g' : CompileGraph) → IsPlain g → IsPlain g' → key_text show g ≡ key_text show g' → g ≡ g'
  key_text_injective g g' p q h =
      let (op, h1) = split_at_mark 124 g.op g'.op _ _ p.op q.op h in
      let (dtype, h2) = split_at_mark 124 g.dtype g'.dtype _ _ p.dtype q.dtype h1 in
      let (arch, h3) = split_at_mark 124 g.arch g'.arch _ _ p.arch q.arch h2 in
      let (tune_cfg, h4) = split_at_mark 124 g.tune_cfg g'.tune_cfg _ _ p.tune_cfg q.tune_cfg h3 in
      let (runtime_ver, h5) =
        split_at_mark 124 g.runtime_ver g'.runtime_ver _ _ p.runtime_ver q.runtime_ver h4 in
      let shape = dims_injective g.shape g'.shape h5 in
      λ i. record {
        op = op i;
        shape = shape i;
        dtype = dtype i;
        arch = arch i;
        tune_cfg = tune_cfg i;
        runtime_ver = runtime_ver i;
      }

-- Where a field has the mark, graphs that differ have one key: a `|` may stand at the end of `op` or
-- at the start of `dtype`.
pub fingerprint_collides :
    (show : ℕ → List ℕ) (g : CompileGraph) (x y : List ℕ)
    → fingerprint show (record g { op = x; dtype = 124 ∷ y })
      ≡ fingerprint show (record g { op = x ++ 124 ∷ []; dtype = y })
unfolding fingerprint
fingerprint_collides show g x y =
    let rest = g.arch ++ 124 ∷ (g.tune_cfg ++ 124 ∷ (g.runtime_ver ++ 124 ∷ dims show g.shape)) in
    ap (λ t. take 16 (hexdigest (update t fresh)))
      (sym (append_assoc x (124 ∷ []) (124 ∷ (y ++ 124 ∷ rest))))
