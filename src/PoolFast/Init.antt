-- ===== src/PoolFast/Init.antt =====
-- The constructor of `PagePoolFast` (src/pool_fast.cpp).
use amp.Prelude.{
  ℕ, zero, suc, ◌+◌, ◌%◌, ◌<◌, ◌≡◌, ◌≢◌, refl, ap, subst, ◌∙◌, List, [], ◌∷◌, Option, none, some,
  ltb, if◌then◌else◌, length, get_or, set, total, count, replicate, ◌==◌, ◌&&◌, arith, get_or-set,
  length-set, inl, inr, length-replicate, total-set, Option-cases, get_or-replicate,
}
use native.Mathlib.Nat.{mod-lt}
use amp.PoolFast.{PageMeta, blank_meta, Pool, meta_at, head_at, init_pages, init_stacks, init, bare}
use amp.PoolFast.Stacks.{Linked, Chained, push-Chained, update, free_bit}
use amp.PoolFast.Pages.{Inv}

-- The pool while the constructor fills in the pages: `k` are done.
record Sized (n k : ℕ) (p : Pool) : Type 0 where
  metas : length p.meta ≡ n
  nexts : length p.next ≡ n
  tops : length p.heads ≡ p.n_shards
  unused : (i : ℕ) → (meta_at p i).touch_us ≡ 0
  homes : (i : ℕ) → i < k → (meta_at p i).shard ≡ i % p.n_shards
  bits : total free_bit p.meta ≡ n
  empty : (s : ℕ) → head_at p s ≡ none
  counters : (p.alloc_cnt ≡ 0) × (p.free_cnt ≡ 0)

Sized-next :
    (n k ptr : ℕ) (p : Pool)
    → k < n
    → Sized n k p
    → Sized n (k + 1) (record p {
      dptrs = set p.dptrs k ptr;
      meta = set p.meta k (record { touch_us = 0; shard = k % p.n_shards });
    })
Sized-next n k ptr p h b = record {
  metas = omega (arith, b.metas, length-set p.meta k m);
  nexts = b.nexts;
  tops = b.tops;
  unused = λ i. ground (arith, b.unused i, get_or-set p.meta k i m blank_meta);
  homes = λ i hi. ground (arith, b.homes i, b.metas, get_or-set p.meta k i m blank_meta);
  bits = ground (arith, b.bits, b.unused k, b.metas, total-set free_bit p.meta k m blank_meta);
  empty = b.empty;
  counters = b.counters;
}
  where
    m : PageMeta
    m = record { touch_us = 0; shard = k % p.n_shards }

init_pages-Sized :
    (malloc : ℕ → Option ℕ) (m k n : ℕ) (p : Pool)
    → k + m ≡ n
    → ((i : ℕ) → i < n → malloc i ≢ none)
    → Sized n k p
    → (q : Pool) × (init_pages malloc m k p ≡ some q) × Sized n n q × (q.n_shards ≡ p.n_shards)
unfolding init_pages
init_pages-Sized malloc zero k n p e serves b =
    (p, refl, subst (λ j. Sized n j p) (let done : k ≡ n = omega arith in done) b, refl)
init_pages-Sized malloc (suc m) k n p e serves b = elim (Option-cases (malloc k)) [
  | inl bad ↦ absurd (serves k (omega arith) bad)
  | inr (ptr, good) ↦
      rw (good, init_pages)
        (init_pages-Sized malloc m (k + 1) n _ (omega arith) serves
          (Sized-next n k ptr p (omega arith) b))
]

-- The pool while the constructor builds the stacks: pages below `k` stand on them.
record Stacked (n k : ℕ) (stacks : ℕ → List ℕ) (p : Pool) : Type 0 where
  chained : Chained stacks p.next p.heads
  listed : (s i : ℕ) → count i (stacks s) ≡ (if ltb i k && i % p.n_shards == s then 1 else 0)
  nexts : length p.next ≡ n
  tops : length p.heads ≡ p.n_shards

Stacked-next :
    (n k : ℕ) (stacks : ℕ → List ℕ) (p : Pool)
    → k < n
    → 0 < p.n_shards
    → Stacked n k stacks p
    → Stacked n (k + 1) (update stacks (k % p.n_shards) (k ∷ stacks (k % p.n_shards))) (record p {
      next = set p.next k (head_at p (k % p.n_shards));
      heads = set p.heads (k % p.n_shards) (some k);
    })
Stacked-next n k stacks p h pos b = record {
  chained =
      push-Chained stacks p.next p.heads (k % p.n_shards) k (omega (arith, b.tops, mod-lt k pos))
        (omega (arith, b.nexts)) (λ t. ground (arith, b.listed t k)) b.chained;
  listed = λ s i. ground (arith, b.listed s i);
  nexts = omega (arith, b.nexts, length-set p.next k (head_at p (k % p.n_shards)));
  tops = omega (arith, b.tops, length-set p.heads (k % p.n_shards) (some k));
}

-- What the stacks' loop leaves alone.
abbrev Same : Pool → Pool → Type 0
Same p q =
    (q.meta ≡ p.meta)
    × (q.n_shards ≡ p.n_shards)
    × (q.alloc_cnt ≡ p.alloc_cnt)
    × (q.free_cnt ≡ p.free_cnt)

init_stacks-Stacked :
    (m k n : ℕ) (stacks : ℕ → List ℕ) (p : Pool)
    → k + m ≡ n
    → 0 < p.n_shards
    → Stacked n k stacks p
    → (out : ℕ → List ℕ) × Stacked n n out (init_stacks m k p) × Same p (init_stacks m k p)
unfolding init_stacks
init_stacks-Stacked zero k n stacks p e pos b = (
  stacks,
  subst (λ j. Stacked n j stacks p) (let done : k ≡ n = omega arith in done) b,
  (refl, refl, refl, refl),
)
init_stacks-Stacked (suc m) k n stacks p e pos b =
    init_stacks-Stacked m (k + 1) n _ _ (omega arith) pos
      (Stacked-next n k stacks p (omega arith) pos b)

total-blank : (n : ℕ) → total free_bit (replicate n blank_meta) ≡ n
total-blank zero = refl
total-blank (suc n) = omega (arith, total-blank n)

Stacked-Linked :
    (n : ℕ) (stacks : ℕ → List ℕ) (p q : Pool)
    → 0 < p.n_shards
    → Sized n n p
    → Same p q
    → Stacked n n stacks q
    → Linked stacks q
Stacked-Linked n stacks p q pos z (metas, shards, _, _) b = record {
  chained = b.chained;
  exact = λ s i. ground (
    arith,
    b.listed s i,
    ap length metas,
    ap (λ ms. get_or ms i blank_meta) metas,
    z.homes i,
    z.unused i,
    z.metas,
  );
  links = omega (arith, b.nexts, ap length metas, z.metas);
  shards = b.tops;
  owned = λ i hi. ground (
    arith,
    ap length metas,
    ap (λ ms. get_or ms i blank_meta) metas,
    z.homes i,
    z.metas,
    mod-lt i pos,
  );
}

-- Where the allocator serves every page, the constructor returns a pool of `n_pages` pages, all
-- free, page `i` on the stack of shard `i % n_shards`, with both counters at zero.
pub init_sharded :
    (malloc : ℕ → Option ℕ) (n_pages page_bytes n_shards : ℕ)
    → 0 < n_shards
    → ((i : ℕ) → i < n_pages → malloc i ≢ none)
    → (p : Pool) × (init malloc n_pages page_bytes n_shards ≡ some p)
      × Inv p
      × (length p.meta ≡ n_pages)
      × (p.n_shards ≡ n_shards)
      × (total free_bit p.meta ≡ n_pages)
      × ((i : ℕ) → i < n_pages → (meta_at p i).shard ≡ i % n_shards)
      × (p.alloc_cnt ≡ 0)
      × (p.free_cnt ≡ 0)
unfolding init
init_sharded malloc n_pages page_bytes n_shards pos serves =
    let (p, built, z, e) =
      init_pages-Sized malloc n_pages 0 n_pages (bare n_pages page_bytes n_shards) (omega arith)
        serves
        (record {
          metas = length-replicate n_pages blank_meta;
          nexts = length-replicate n_pages none;
          tops = length-replicate n_shards none;
          unused = λ i. ap (λ m. m.touch_us) (get_or-replicate n_pages i blank_meta);
          homes = λ i h. absurd (omega arith);
          bits = total-blank n_pages;
          empty = λ s. get_or-replicate n_shards s none;
          counters = (refl, refl);
        }) in
    let some_shard : 0 < p.n_shards = omega arith in
    let (stacks, b, same) =
      init_stacks-Stacked n_pages 0 n_pages (λ _. []) p (omega arith) some_shard
        (record {
          chained = z.empty;
          listed = λ s i. ground arith;
          nexts = z.nexts;
          tops = z.tops;
        }) in
    let q = init_stacks n_pages 0 p in
    (
      q,
      rw (built, init),
      (stacks, Stacked-Linked n_pages stacks p q some_shard z same b),
      ap length same.0 ∙ z.metas,
      same.1 ∙ e,
      ap (total free_bit) same.0 ∙ z.bits,
      λ i hi. ap (λ ms. (get_or ms i blank_meta).shard) same.0 ∙ z.homes i hi ∙ ap (λ n. i % n) e,
      same.2 ∙ z.counters.0,
      same.3 ∙ z.counters.1,
    )
