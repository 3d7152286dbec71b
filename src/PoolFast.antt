-- ===== src/PoolFast.antt =====
-- include/pool_fast.hpp and src/pool_fast.cpp: the sharded allocator. A call runs here with no
-- other thread between its atomic accesses, so each compare-exchange finds what was loaded and
-- succeeds. `now_us()` is an argument of the calls that read it; a page id, `-1` included, is an
-- `Option ℕ`. A read out of range of a vector gives the value named beside it and a write there
-- changes nothing; `PoolFast.Stacks` shows that no index leaves its vector.
pub mod Stacks
pub mod Taking
pub mod Pages
pub mod Alloc
pub mod Sweep
pub mod DoubleFree
pub mod Init
pub mod Protocol
use amp.Prelude.{
  ℕ, zero, suc, ◌+◌, ◌-◌, ◌*◌, ◌/◌, ◌%◌, ◌^◌, Bool, true, false, List, [], ◌∷◌, ◌++◌, Option, none,
  some, ltb, if◌then◌else◌, length, get_or, set, total, bit, replicate, ◌==◌, ◌&&◌, not, ◌||◌,
}

-- `struct PageMeta`; `touch_us` is 0 for a page that is free.
pub record PageMeta : Type 0 where
  pub touch_us : ℕ
  pub shard : ℕ

abbrev pub blank_meta : PageMeta
blank_meta = record { touch_us = 0; shard = 0 }

-- `class PagePoolFast`. `heads` has a stack for each shard, linked through `next`.
pub record Pool : Type 0 where
  pub page_bytes : ℕ
  pub n_shards : ℕ
  pub dptrs : List ℕ
  pub meta : List PageMeta
  pub heads : List (Option ℕ)
  pub next : List (Option ℕ)
  pub alloc_cnt : ℕ
  pub free_cnt : ℕ

abbrev pub meta_at : Pool → ℕ → PageMeta
meta_at p i = get_or p.meta i blank_meta

abbrev pub head_at : Pool → ℕ → Option ℕ
head_at p s = get_or p.heads s none

abbrev pub next_at : Pool → ℕ → Option ℕ
next_at p i = get_or p.next i none

abbrev pub u64 : ℕ → ℕ
u64 n = n % 2 ^ 64

-- The first loop of the constructor, with `n` pages to go; `none` is the exception of AMP_CHECK.
unfoldable pub init_pages : (ℕ → Option ℕ) → ℕ → ℕ → Pool → Option Pool
init_pages malloc zero i p = some p
init_pages malloc (suc n) i p = elim (malloc i) [
  | none ↦ none
  | some ptr ↦ init_pages malloc n (i + 1) (record p {
    dptrs = set p.dptrs i ptr;
    meta = set p.meta i (record { touch_us = 0; shard = i % p.n_shards });
  })
]

-- The last loop of the constructor: page `i` goes on the stack of shard `i % n_shards`.
unfoldable pub init_stacks : ℕ → ℕ → Pool → Pool
init_stacks zero i p = p
init_stacks (suc n) i p = init_stacks n (i + 1) (record p {
  next = set p.next i (head_at p (i % p.n_shards));
  heads = set p.heads (i % p.n_shards) (some i);
})

-- The members as the constructor's initialiser list leaves them.
abbrev pub bare : ℕ → ℕ → ℕ → Pool
bare n_pages page_bytes n_shards = record {
  page_bytes = page_bytes;
  n_shards = n_shards;
  dptrs = replicate n_pages 0;
  meta = replicate n_pages blank_meta;
  heads = replicate n_shards none;
  next = replicate n_pages none;
  alloc_cnt = 0;
  free_cnt = 0;
}

-- `PagePoolFast::PagePoolFast`
unfoldable pub init : (ℕ → Option ℕ) → ℕ → ℕ → ℕ → Option Pool
unfolding init_pages init_stacks
init malloc n_pages page_bytes n_shards =
    elim (init_pages malloc n_pages 0 (bare n_pages page_bytes n_shards)) [
      | none ↦ none
      | some p ↦ some (init_stacks n_pages 0 p)
    ]

-- The compare-exchange that takes `top` off shard `s`, and the time stamp.
unfoldable pub pop_page : ℕ → ℕ → ℕ → Pool → Pool
pop_page s top ts p = record p {
  heads = set p.heads s (next_at p top);
  meta = set p.meta top (record (meta_at p top) { touch_us = ts });
}

-- The inner loop of `alloc` on shard `s`, while `k` pages are wanted.
unfoldable pub pop_loop : ℕ → ℕ → ℕ → Pool → Pool × List ℕ
unfolding pop_page
pop_loop zero s ts p = (p, [])
pop_loop (suc k) s ts p = elim (head_at p s) [
  | none ↦ (p, [])
  | some top ↦ let rest = pop_loop k s ts (pop_page s top ts p) in (rest.0, top ∷ rest.1)
]

-- The outer loop of `alloc`: `tries` shards to go, `k` pages wanted.
unfoldable pub alloc_shards : ℕ → ℕ → ℕ → ℕ → Pool → Pool × List ℕ
unfolding pop_loop
alloc_shards zero k s ts p = (p, [])
alloc_shards (suc tries) zero s ts p = (p, [])
alloc_shards (suc tries) (suc k) s ts p =
    let r = pop_loop (suc k) s ts p in
    let rest = alloc_shards tries (suc k - length r.1) ((s + 1) % p.n_shards) ts r.0 in
    (rest.0, r.1 ++ rest.1)

-- The body of the loop of `free_pages`: the page goes on top of its shard.
unfoldable pub push_page : ℕ → Pool → Pool
push_page id p = record p {
  meta = set p.meta id (record (meta_at p id) { touch_us = 0 });
  next = set p.next id (head_at p (meta_at p id).shard);
  heads = set p.heads (meta_at p id).shard (some id);
}

unfoldable pub push_loop : List ℕ → Pool → Pool
unfolding push_page
push_loop [] p = p
push_loop (id ∷ ids) p = push_loop ids (push_page id p)

-- `PagePoolFast::free_pages`
unfoldable pub free_pages : List ℕ → Pool → Pool
unfolding push_loop
free_pages ids p = let q = push_loop ids p in record q { free_cnt = u64 (q.free_cnt + length ids) }

-- `PagePoolFast::alloc`; `thread_hash` is the pattern of the `unsigned`.
unfoldable pub alloc : ℕ → ℕ → ℕ → Pool → Pool × List ℕ
unfolding alloc_shards free_pages
alloc n thread_hash ts p =
    let r = alloc_shards p.n_shards n (thread_hash % p.n_shards) ts p in
    if ltb (length r.1) n
    then (free_pages r.1 r.0, [])
    else (record (r.0) { alloc_cnt = u64 (r.0.alloc_cnt + n) }, r.1)

-- `PagePoolFast::touch`
unfoldable pub touch : List ℕ → ℕ → Pool → Pool
touch [] ts p = p
touch (id ∷ ids) ts p =
    touch ids ts (record p { meta = set p.meta id (record (meta_at p id) { touch_us = ts }) })

-- `t != 0 && now - t > ttl_us`, on `uint64_t`.
abbrev pub is_stale : ℕ → ℕ → PageMeta → Bool
is_stale ttl_ms now m =
    not (m.touch_us == 0) && ltb (u64 (ttl_ms * 1000)) ((now + 2 ^ 64 - m.touch_us) % 2 ^ 64)

-- The loop of `leak_scan`, over the pages from index `i` on.
unfoldable pub orphans : ℕ → ℕ → ℕ → List PageMeta → List ℕ
orphans ttl_ms now i [] = []
orphans ttl_ms now i (m ∷ ms) =
    let rest = orphans ttl_ms now (i + 1) ms in if is_stale ttl_ms now m then i ∷ rest else rest

-- `PagePoolFast::leak_scan`
unfoldable pub leak_scan : ℕ → ℕ → Pool → Pool × ℕ
unfolding orphans free_pages
leak_scan ttl_ms now p =
    let orphan = orphans ttl_ms now 0 p.meta in (free_pages orphan p, length orphan)

-- `PagePoolFast::Stats`
pub record Stats : Type 0 where
  pub total : ℕ
  pub in_use : ℕ
  pub alloc_cnt : ℕ
  pub free_cnt : ℕ

abbrev pub in_use_bit : PageMeta → ℕ
in_use_bit m = if m.touch_us == 0 then 0 else 1

-- `PagePoolFast::stats`
unfoldable pub stats : Pool → Stats
stats p = record {
  total = length p.meta;
  in_use = total in_use_bit p.meta;
  alloc_cnt = p.alloc_cnt;
  free_cnt = p.free_cnt;
}

-- `PagePoolFast::~PagePoolFast`: the pointers handed to AMP_FREE, in order.
unfoldable pub destroy : List ℕ → List ℕ
destroy [] = []
destroy (d ∷ ds) = let rest = destroy ds in if ltb 0 d then d ∷ rest else rest
