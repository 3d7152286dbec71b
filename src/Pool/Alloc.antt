-- ===== src/Pool/Alloc.antt =====
-- `PagePool::alloc`, the constructor and `stats` (src/pool.cpp).
use amp.Prelude.{
  ℕ, zero, suc, ◌+◌, ◌≤◌, ◌<◌, ◌≡◌, ◌≢◌, inl, inr, refl, subst, true, List, [], ◌∷◌, Option, none,
  some, ltb, if◌then◌else◌, length, get_or, set, bit, count, total, get_or-set, total-set,
  Bool-cases, length-set, replicate, arith, has, Option-cases, length-replicate,
}
use Prim.Native.String.{String}
use amp.Pool.{
  Page, blank_page, Pool, page, taken, alloc_loop, alloc, in_use_bit, u64, stats, init, init_pages,
}
use amp.Pool.Invariant.{is_free, Tied, Inv, free_bit, Tied-head, Tied-take}

alloc_loop-length :
    (trace_id : String) (now n : ℕ) (p : Pool) (fl : List ℕ)
    → n ≤ length fl
    → length (alloc_loop trace_id now n p fl).1 ≡ n
unfolding alloc_loop
alloc_loop-length trace_id now zero p fl h = refl
alloc_loop-length trace_id now (suc n) p [] h = absurd (omega arith)
alloc_loop-length trace_id now (suc n) p (id ∷ fl) h = omega (
  arith,
  alloc_loop-length trace_id now n
      (record p { pages = set p.pages id (taken trace_id now (page p id)) }) fl,
)

alloc_loop-count :
    (trace_id : String) (now n i : ℕ) (p : Pool) (fl : List ℕ)
    → count i (alloc_loop trace_id now n p fl).1
        + count i (alloc_loop trace_id now n p fl).0.free_list
      ≡ count i fl
unfolding alloc_loop
alloc_loop-count trace_id now zero i p fl = omega arith
alloc_loop-count trace_id now (suc n) i p [] = omega arith
alloc_loop-count trace_id now (suc n) i p (id ∷ fl) = omega (
  arith,
  alloc_loop-count trace_id now n i
      (record p { pages = set p.pages id (taken trace_id now (page p id)) }) fl,
)

alloc_loop-page :
    (trace_id : String) (now n i : ℕ) (p : Pool) (fl : List ℕ)
    → Tied p.pages fl
    → page (alloc_loop trace_id now n p fl).0 i ≡ (
        if has i (alloc_loop trace_id now n p fl).1
        then taken trace_id now (page p i)
        else page p i)
unfolding alloc_loop
alloc_loop-page trace_id now zero i p fl v = refl
alloc_loop-page trace_id now (suc n) i p [] v = refl
alloc_loop-page trace_id now (suc n) i p (id ∷ fl) v = ground (
  arith,
  Tied-head p.pages id fl v,
  get_or-set p.pages id i (taken trace_id now (page p id)) blank_page,
  alloc_loop-page trace_id now n i
      (record p { pages = set p.pages id (taken trace_id now (page p id)) }) fl
      (Tied-take p.pages id fl (taken trace_id now (page p id)) refl v),
)

-- With enough free pages `alloc` hands out `n` of them, each free before, none twice: they leave
-- the free list, and go into use under the caller's name; no other page changes.
pub alloc_lem :
    (trace_id : String) (n now : ℕ) (p : Pool)
    → Inv p
    → n ≤ length p.free_list
    → let r = alloc trace_id n now p in
      (length r.1 ≡ n)
      × ((i : ℕ) → count i r.1 + count i r.0.free_list ≡ count i p.free_list)
      × ((i : ℕ) → count i r.1 ≤ is_free p.pages i)
      × ((i : ℕ) → page r.0 i ≡ (if has i r.1 then taken trace_id now (page p i) else page p i))
      × (r.0.alloc_cnt ≡ u64 (p.alloc_cnt + n))
unfolding alloc
alloc_lem trace_id n now p v h = elim (Bool-cases (ltb (length p.free_list) n)) [
  | inl short ↦ absurd (ground arith)
  | inr enough ↦
      rw (enough, alloc)
        (
          alloc_loop-length trace_id now n p p.free_list h,
          λ i. alloc_loop-count trace_id now n i p p.free_list,
          λ i. omega (arith, alloc_loop-count trace_id now n i p p.free_list, v.exact i),
          λ i. alloc_loop-page trace_id now n i p p.free_list v,
          refl,
        )
]

-- Without enough free pages it returns no id and leaves the pool as it was.
pub alloc_short :
    (trace_id : String) (n now : ℕ) (p : Pool)
    → length p.free_list < n
    → alloc trace_id n now p ≡ (p, [])
unfolding alloc
alloc_short trace_id n now p h = ground arith

total-bits : (pages : List Page) → total in_use_bit pages + total free_bit pages ≡ length pages
total-bits [] = refl
total-bits (q ∷ qs) = ground (arith, total-bits qs)

-- `stats` adds up: pages in use and pages free make the pool.
stats_lem : (p : Pool) → Inv p → (stats p).in_use + (stats p).free ≡ (stats p).total
unfolding stats
stats_lem p v = omega (arith, v.counted, total-bits p.pages)

-- The state of the constructor's loop at page `i`.
record Built (n bytes i : ℕ) (p : Pool) : Type 0 where
  size : length p.pages ≡ n
  listed : (j : ℕ) → count j p.free_list ≡ bit (ltb j i)
  many : length p.free_list ≡ i
  all_free : total free_bit p.pages ≡ n
  each_free : (j : ℕ) → (page p j).freed ≡ true
  sized : (j : ℕ) → j < i → (page p j).bytes ≡ bytes
  counts : (p.alloc_cnt ≡ 0) × (p.free_cnt ≡ 0)

Built-next :
    (n bytes i ptr : ℕ) (p : Pool)
    → i < n
    → Built n bytes i p
    → Built n bytes (i + 1) (record p {
      pages = set p.pages i (record blank_page { dptr = ptr; bytes = bytes; freed = true });
      free_list = i ∷ p.free_list;
    })
Built-next n bytes i ptr p h b = record {
  size = omega (arith, length-set p.pages i q, b.size);
  listed = λ j. ground (arith, b.listed j);
  many = omega (arith, b.many);
  all_free =
      ground (arith, total-set free_bit p.pages i q blank_page, b.all_free, b.each_free i, b.size);
  each_free = λ j. ground (arith, get_or-set p.pages i j q blank_page, b.each_free j);
  sized = λ j hj. ground (arith, get_or-set p.pages i j q blank_page, b.sized j, b.size);
  counts = b.counts;
}
  where
    q : Page
    q = record blank_page { dptr = ptr; bytes = bytes; freed = true }

init_pages-Built :
    (malloc : ℕ → Option ℕ) (m i n bytes : ℕ) (p q : Pool)
    → i + m ≡ n
    → Built n bytes i p
    → init_pages malloc m i bytes p ≡ some q
    → Built n bytes n q
unfolding init_pages
init_pages-Built malloc zero i n bytes p q e b r =
    let same : p ≡ q = cc in
    let done : i ≡ n = omega arith in
    subst (λ x. Built n bytes n x) same (subst (λ k. Built n bytes k p) done b)
init_pages-Built malloc (suc m) i n bytes p q e b r = elim (Option-cases (malloc i)) [
  | inl bad ↦ ground arith
  | inr (ptr, good) ↦
      init_pages-Built malloc m (i + 1) n bytes _ q (omega arith)
        (Built-next n bytes i ptr p (omega arith) b) (ground arith)
]

replicate-free : (n j : ℕ) → (get_or (replicate n blank_page) j blank_page).freed ≡ true
replicate-free zero j = refl
replicate-free (suc n) zero = refl
replicate-free (suc n) (suc j) = replicate-free n j

total-replicate : (n : ℕ) → total free_bit (replicate n blank_page) ≡ n
total-replicate zero = refl
total-replicate (suc n) = omega (arith, total-replicate n)

init-Built :
    (malloc : ℕ → Option ℕ) (n_pages page_bytes : ℕ) (p : Pool)
    → init malloc n_pages page_bytes ≡ some p
    → Inv p
      × (length p.pages ≡ n_pages)
      × (length p.free_list ≡ n_pages)
      × ((i : ℕ) → i < n_pages → (page p i).bytes ≡ page_bytes)
      × (p.alloc_cnt ≡ 0)
      × (p.free_cnt ≡ 0)
unfolding init
init-Built malloc n_pages page_bytes p e = (
  record {
    exact = λ i. ground (arith, b.listed i, b.each_free i, b.size);
    counted = omega (arith, b.many, b.all_free);
  },
  b.size,
  b.many,
  b.sized,
  b.counts.0,
  b.counts.1,
)
  where
    b : Built n_pages page_bytes n_pages p
    b =
        init_pages-Built malloc n_pages 0 n_pages page_bytes _ p (omega arith)
          (record {
            size = length-replicate n_pages blank_page;
            listed = λ j. ground arith;
            many = refl;
            all_free = total-replicate n_pages;
            each_free = replicate-free n_pages;
            sized = λ j h. absurd (omega arith);
            counts = (refl, refl);
          })
          e

init_pages_serves :
    (malloc : ℕ → Option ℕ) (m i bytes : ℕ) (p : Pool)
    → ((j : ℕ) → i ≤ j → j < i + m → malloc j ≢ none)
    → (q : Pool) × (init_pages malloc m i bytes p ≡ some q)
unfolding init_pages
init_pages_serves malloc zero i bytes p h = (p, refl)
init_pages_serves malloc (suc m) i bytes p h = elim (Option-cases (malloc i)) [
  | inl bad ↦ absurd (h i (omega arith) (omega arith) bad)
  | inr (ptr, good) ↦
      rw (good, init_pages)
        (init_pages_serves malloc m (i + 1) bytes _ (λ j lo hi. h j (omega arith) (omega arith)))
]

-- Where the allocator serves every page, the constructor returns a pool of `n_pages` free pages of
-- `page_bytes` bytes, all on the free list, with both counters at zero.
init_lem :
    (malloc : ℕ → Option ℕ) (n_pages page_bytes : ℕ)
    → ((i : ℕ) → i < n_pages → malloc i ≢ none)
    → (p : Pool) × (init malloc n_pages page_bytes ≡ some p)
      × Inv p
      × (length p.pages ≡ n_pages)
      × (length p.free_list ≡ n_pages)
      × ((i : ℕ) → i < n_pages → (page p i).bytes ≡ page_bytes)
      × (p.alloc_cnt ≡ 0)
      × (p.free_cnt ≡ 0)
unfolding init
init_lem malloc n_pages page_bytes h =
    let (p, e) = init_pages_serves malloc n_pages 0 page_bytes _ (λ j lo hi. h j (omega arith)) in
    let (v, size, many, sized, a, f) = init-Built malloc n_pages page_bytes p e in
    (p, e, v, size, many, sized, a, f)
