-- ===== src/Pool.antt =====
-- include/pool.hpp and src/pool.cpp: the paged KV allocator behind one mutex. Each method runs
-- under the lock, so it is one step on the record below. Time is an argument of the calls that
-- read the clock. A C++ `int` count is a number (the callers pass none below zero), and the
-- `uint64_t` counters wrap as written.
pub mod Invariant
pub mod Pages
pub mod Alloc
use amp.Prelude.{
  ℕ, zero, suc, ◌+◌, ◌-◌, ◌/◌, ◌%◌, ◌^◌, Bool, true, false, List, [], ◌∷◌, ◌++◌, Option, none, some,
  ltb, if◌then◌else◌, length, get_or, set, total, bit, replicate,
}
use Prim.Native.String.{String}

-- `struct Page`
pub record Page : Type 0 where
  pub dptr : ℕ
  pub bytes : ℕ
  pub refcount : ℕ
  pub owner : String
  pub alloc_ts : ℕ
  pub touch_ts : ℕ
  pub freed : Bool

-- The page that `std::vector<Page> pages_(n)` starts from; also what a read out of range gives.
abbrev pub blank_page : Page
blank_page = record {
  dptr = 0;
  bytes = 0;
  refcount = 0;
  owner = "";
  alloc_ts = 0;
  touch_ts = 0;
  freed = true;
}

-- `class PagePool`. The head of `free_list` is the back of the vector.
pub record Pool : Type 0 where
  pub page_bytes : ℕ
  pub pages : List Page
  pub free_list : List ℕ
  pub alloc_cnt : ℕ
  pub free_cnt : ℕ

abbrev pub page : Pool → ℕ → Page
page p i = get_or p.pages i blank_page

-- A `uint64_t` counter.
abbrev pub u64 : ℕ → ℕ
u64 n = n % 2 ^ 64

-- The loop of the constructor, from page `i` on, with `n` rounds to go. `malloc i` is what the
-- device allocator gives for page `i`; `none` is the exception of AMP_CHECK.
unfoldable pub init_pages : (ℕ → Option ℕ) → ℕ → ℕ → ℕ → Pool → Option Pool
init_pages malloc zero i page_bytes p = some p
init_pages malloc (suc n) i page_bytes p = elim (malloc i) [
  | none ↦ none
  | some ptr ↦ init_pages malloc n (i + 1) page_bytes (record p {
    pages = set p.pages i (record blank_page { dptr = ptr; bytes = page_bytes; freed = true });
    free_list = i ∷ p.free_list;
  })
]

-- `PagePool::PagePool`
unfoldable pub init : (ℕ → Option ℕ) → ℕ → ℕ → Option Pool
unfolding init_pages
init malloc n_pages page_bytes = init_pages malloc n_pages 0 page_bytes (record {
  page_bytes = page_bytes;
  pages = replicate n_pages blank_page;
  free_list = [];
  alloc_cnt = 0;
  free_cnt = 0;
})

-- `p.refcount = 1; p.owner = trace_id; p.alloc_ts = p.touch_ts = now; p.freed = false`
abbrev pub taken : String → ℕ → Page → Page
taken trace_id now q = record q {
  refcount = 1;
  owner = trace_id;
  alloc_ts = now;
  touch_ts = now;
  freed = false;
}

-- `p.refcount = 0; p.owner.clear(); p.freed = true`
abbrev pub returned : Page → Page
returned q = record q { refcount = 0; owner = ""; freed = true }

-- The loop of `alloc`, with `n` rounds to go: the pool and the ids in the order of `out`.
unfoldable pub alloc_loop : String → ℕ → ℕ → Pool → List ℕ → Pool × List ℕ
alloc_loop trace_id now zero p fl = (record p { free_list = fl }, [])
alloc_loop trace_id now (suc n) p [] = (record p { free_list = [] }, [])
alloc_loop trace_id now (suc n) p (id ∷ fl) =
    let rest =
      alloc_loop trace_id now n
        (record p { pages = set p.pages id (taken trace_id now (page p id)) }) fl in
    (rest.0, id ∷ rest.1)

-- `PagePool::alloc`
unfoldable pub alloc : String → ℕ → ℕ → Pool → Pool × List ℕ
unfolding alloc_loop
alloc trace_id n now p =
    if ltb (length p.free_list) n
    then (p, [])
    else (let r = alloc_loop trace_id now n p p.free_list in
        (record (r.0) { alloc_cnt = u64 (p.alloc_cnt + n) }, r.1))

-- The body of the loops of `free_pages` and, without the guard, of `leak_scan`.
unfoldable pub give_back : ℕ → Pool → Pool
give_back id p = record p {
  pages = set p.pages id (returned (page p id));
  free_list = id ∷ p.free_list;
  free_cnt = u64 (p.free_cnt + 1);
}

-- `PagePool::free_pages`
unfoldable pub free_pages : List ℕ → Pool → Pool
unfolding give_back
free_pages [] p = p
free_pages (id ∷ ids) p = free_pages ids (if (page p id).freed then p else give_back id p)

-- `PagePool::touch`
unfoldable pub touch : List ℕ → ℕ → Pool → Pool
touch [] now p = p
touch (id ∷ ids) now p =
    touch ids now (record p { pages = set p.pages id (record (page p id) { touch_ts = now }) })

-- The first loop of `leak_scan`, over the pages from index `i` on.
unfoldable pub orphans : ℕ → ℕ → ℕ → List Page → List ℕ
orphans ttl_ms now i [] = []
orphans ttl_ms now i (q ∷ qs) =
    let rest = orphans ttl_ms now (i + 1) qs in
    if q.freed then rest else if ltb ttl_ms ((now - q.touch_ts) / 1000000) then i ∷ rest else rest

-- The second loop of `leak_scan`.
unfoldable pub reclaim : List ℕ → Pool → Pool
unfolding give_back
reclaim [] p = p
reclaim (id ∷ ids) p = reclaim ids (give_back id p)

-- `PagePool::leak_scan`
unfoldable pub leak_scan : ℕ → ℕ → Pool → Pool × ℕ
unfolding orphans reclaim
leak_scan ttl_ms now p =
    let orphan = orphans ttl_ms now 0 p.pages in (reclaim orphan p, length orphan)

abbrev pub in_use_bit : Page → ℕ
in_use_bit q = if q.freed then 0 else 1

-- `PagePool::Stats`
pub record Stats : Type 0 where
  pub total : ℕ
  pub in_use : ℕ
  pub free : ℕ
  pub alloc_cnt : ℕ
  pub free_cnt : ℕ

-- `PagePool::stats`
unfoldable pub stats : Pool → Stats
stats p = record {
  total = length p.pages;
  in_use = total in_use_bit p.pages;
  free = length p.free_list;
  alloc_cnt = p.alloc_cnt;
  free_cnt = p.free_cnt;
}

-- `PagePool::~PagePool`: the pointers handed to AMP_FREE, in order.
unfoldable pub destroy : List Page → List ℕ
destroy [] = []
destroy (q ∷ qs) = let rest = destroy qs in if ltb 0 q.dptr then q.dptr ∷ rest else rest
