-- ===== src/Tests/FastPools.antt =====
-- `PagePoolFast` (src/pool_fast.cpp) on a pool of four pages and two shards.
use amp.Prelude.{
  ℕ, zero, suc, ◌+◌, ◌%◌, ◌<◌, ◌≤◌, ◌≡◌, refl, subst, [], ◌∷◌, none, some, length, total, count,
  has, bit, if◌then◌else◌, arith, replicate,
}
use amp.PoolFast.{Pool, PageMeta, meta_at, u64, init, alloc, free_pages, leak_scan, is_stale}
use amp.PoolFast.Stacks.{is_free, free_bit}
use amp.PoolFast.Pages.{Inv, is_used, free_pages_in_use}
use amp.PoolFast.Alloc.{alloc_across_shards, alloc_short_counts}
use amp.PoolFast.Sweep.{leak_scan_wrapping}
use amp.PoolFast.DoubleFree.{alloc_after_double_free}
use amp.PoolFast.Init.{init_sharded}
use amp.PoolFast.Protocol.{allocs, frees, scans, run, run-Inv}

abbrev free_page : ℕ → PageMeta
free_page s = record { touch_us = 0; shard = s }

abbrev used_page : ℕ → ℕ → PageMeta
used_page s ts = record { touch_us = ts; shard = s }

-- What the constructor makes of four pages and two shards.
abbrev pub four : Pool
four = record {
  page_bytes = 64;
  n_shards = 2;
  dptrs = 1 ∷ 1 ∷ 1 ∷ 1 ∷ [];
  meta = free_page 0 ∷ free_page 1 ∷ free_page 0 ∷ free_page 1 ∷ [];
  heads = some 2 ∷ some 3 ∷ [];
  next = none ∷ none ∷ some 0 ∷ some 1 ∷ [];
  alloc_cnt = 0;
  free_cnt = 0;
}

-- Page 2 is in use since time 50.
abbrev leased : Pool
leased = record four {
  meta = free_page 0 ∷ free_page 1 ∷ used_page 0 50 ∷ free_page 1 ∷ [];
  heads = some 0 ∷ some 3 ∷ [];
  alloc_cnt = 1;
}

init_runs : init (λ i. some 1) 4 64 2 ≡ some four
unfolding init
init_runs = refl

-- A request is served across shards; one that cannot be served gives back what it took.
alloc_runs :
    (alloc 1 6 50 four ≡ (leased, 2 ∷ []))
    × ((alloc 3 0 60 leased).1 ≡ 0 ∷ 3 ∷ 1 ∷ [])
    × ((alloc 4 0 60 leased).1 ≡ [])
    × ((alloc 4 0 60 leased).0.free_cnt ≡ 3)
unfolding alloc
alloc_runs = (refl, refl, refl, refl)

built :
    (p : Pool) × (init (λ i. some 1) 4 64 2 ≡ some p)
    × Inv p
    × (length p.meta ≡ 4)
    × (p.n_shards ≡ 2)
    × (total free_bit p.meta ≡ 4)
    × ((i : ℕ) → i < 4 → (meta_at p i).shard ≡ i % 2)
    × (p.alloc_cnt ≡ 0)
    × (p.free_cnt ≡ 0)
built = init_sharded (λ i. some 1) 4 64 2 (omega arith) (λ i h e. cc)

pub four-Inv : Inv four
four-Inv = let same : built.0 ≡ four = cc (built.1, init_runs) in subst Inv same built.2

leased-Inv : Inv leased
leased-Inv =
    subst (λ r. Inv r.0) alloc_runs.0
      (alloc_across_shards 1 6 50 four (omega arith) (omega arith) (omega arith) four-Inv).3

alloc_across_shards_example :
    let r = alloc 3 1 60 leased in
    (length r.1 ≡ 3)
    × ((i : ℕ) → count i r.1 ≤ is_free leased.meta i)
    × ((i : ℕ)
        → meta_at r.0 i
          ≡ (if has i r.1 then record (meta_at leased i) { touch_us = 60 } else meta_at leased i))
    × Inv r.0
    × (total free_bit r.0.meta + 3 ≡ total free_bit leased.meta)
    × (r.0.alloc_cnt ≡ u64 (leased.alloc_cnt + 3))
    × (r.0.free_cnt ≡ leased.free_cnt)
alloc_across_shards_example =
    alloc_across_shards 3 1 60 leased (omega arith) (omega arith) (omega arith) leased-Inv

alloc_short_counts_example :
    let r = alloc 4 0 60 leased in
    (r.1 ≡ [])
    × Inv r.0
    × ((i : ℕ) → meta_at r.0 i ≡ meta_at leased i)
    × (r.0.alloc_cnt ≡ leased.alloc_cnt)
    × (r.0.free_cnt ≡ u64 (leased.free_cnt + total free_bit leased.meta))
alloc_short_counts_example =
    alloc_short_counts 4 0 60 leased (omega arith) (omega arith) (omega arith) leased-Inv

used_once : (i : ℕ) → count i (2 ∷ []) ≤ is_used leased.meta i
used_once zero = omega arith
used_once (suc zero) = omega arith
used_once (suc (suc zero)) = omega arith
used_once (suc (suc (suc i))) = ground arith

free_pages_in_use_example :
    let q = free_pages (2 ∷ []) leased in
    Inv q
    × ((i : ℕ)
        → meta_at q i ≡ (
            if has i (2 ∷ [])
            then record (meta_at leased i) { touch_us = 0 }
            else meta_at leased i))
    × (total free_bit q.meta ≡ total free_bit leased.meta + 1)
    × (q.free_cnt ≡ u64 (leased.free_cnt + 1))
    × (q.alloc_cnt ≡ leased.alloc_cnt)
free_pages_in_use_example = free_pages_in_use (2 ∷ []) leased used_once leased-Inv

leak_scan_wrapping_example :
    let r = leak_scan 1 2000 leased in
    Inv r.0
    × (r.1 ≡ total (λ m. bit (is_stale 1 2000 m)) leased.meta)
    × ((i : ℕ)
        → meta_at r.0 i ≡ (
            if is_stale 1 2000 (meta_at leased i)
            then record (meta_at leased i) { touch_us = 0 }
            else meta_at leased i))
    × (r.0.free_cnt ≡ u64 (leased.free_cnt + r.1))
leak_scan_wrapping_example = leak_scan_wrapping 1 2000 leased leased-Inv

alloc_after_double_free_example : (alloc 2 0 60 (free_pages (2 ∷ 2 ∷ []) leased)).1 ≡ replicate 2 2
alloc_after_double_free_example = alloc_after_double_free 2 2 60 leased leased-Inv (omega arith)

run-Inv_example : Inv (run leased (frees (2 ∷ []) ∷ allocs 2 1 70 ∷ scans 1 5000 ∷ []))
run-Inv_example =
    run-Inv leased (frees (2 ∷ []) ∷ allocs 2 1 70 ∷ scans 1 5000 ∷ []) (omega arith)
      (used_once, (omega arith, (tt, tt))) leased-Inv
