-- ===== src/PoolFast/Protocol.antt =====
-- Histories of calls of `PagePoolFast` (include/pool_fast.hpp), and what its callers must keep to.
use amp.Prelude.{
  ℕ, zero, suc, ◌+◌, ◌<◌, ◌≤◌, ◌≡◌, refl, true, List, [], ◌∷◌, total, count, has, arith, inl, inr,
  ◌-◌, ◌%◌, ◌∙◌, length, Option-cases,
}
use native.Mathlib.Decide.{dec_le}
use amp.PoolFast.{
  Pool, head_at, alloc, free_pages, touch, leak_scan, push_loop, push_page, pop_loop, pop_page,
  alloc_shards, orphans,
}
use amp.PoolFast.Stacks.{free_bit}
use amp.PoolFast.Pages.{Inv, is_used, free_pages_in_use}
use amp.PoolFast.Alloc.{alloc_across_shards, alloc_short_counts}
use amp.PoolFast.Sweep.{leak_scan_wrapping, touch-Inv}

-- A call with its arguments; the last number of each but `frees` is the clock.
pub data Call : Type 0 where
  allocs : (n hash ts : ℕ) → Call
  frees : (ids : List ℕ) → Call
  touches : (ids : List ℕ) (ts : ℕ) → Call
  scans : (ttl_ms now : ℕ) → Call

unfoldable pub step : Pool → Call → Pool
step p (allocs n hash ts) = (alloc n hash ts p).0
step p (frees ids) = free_pages ids p
step p (touches ids ts) = touch ids ts p
step p (scans ttl_ms now) = (leak_scan ttl_ms now p).0

-- The clock is past 0, and pages are given back or touched while they are in use, and given back
-- once.
abbrev pub Legal : Pool → Call → Type 0
Legal p (allocs n hash ts) = 0 < ts
Legal p (frees ids) = (i : ℕ) → count i ids ≤ is_used p.meta i
Legal p (touches ids ts) = (0 < ts) × ((i : ℕ) → has i ids ≡ true → 0 < is_used p.meta i)
Legal p (scans ttl_ms now) = Unit {0}

unfoldable pub run : Pool → List Call → Pool
unfolding step
run p [] = p
run p (c ∷ cs) = run (step p c) cs

abbrev pub AllLegal : Pool → List Call → Type 0
AllLegal p [] = Unit {0}
AllLegal p (c ∷ cs) = Legal p c × AllLegal (step p c) cs

step-Inv : (p : Pool) (c : Call) → 0 < p.n_shards → Legal p c → Inv p → Inv (step p c)
unfolding step
step-Inv p (allocs n hash ts) some_shard h v = elim (dec_le n (total free_bit p.meta)) [
  | yes enough ↦ (alloc_across_shards n hash ts p h some_shard enough v).3
  | no short ↦ (alloc_short_counts n hash ts p h some_shard (omega arith) v).1
]
step-Inv p (frees ids) some_shard h v = (free_pages_in_use ids p h v).0
step-Inv p (touches ids ts) some_shard h v = touch-Inv ids ts p h.0 h.1 v
step-Inv p (scans ttl_ms now) some_shard h v = (leak_scan_wrapping ttl_ms now p v).0

push_loop-n_shards : (ids : List ℕ) (p : Pool) → (push_loop ids p).n_shards ≡ p.n_shards
unfolding push_loop
push_loop-n_shards [] p = refl
push_loop-n_shards (id ∷ ids) p = unfold push_page in push_loop-n_shards ids (push_page id p)

pop_loop-n_shards : (k s ts : ℕ) (p : Pool) → (pop_loop k s ts p).0.n_shards ≡ p.n_shards
unfolding pop_loop
pop_loop-n_shards zero s ts p = refl
pop_loop-n_shards (suc k) s ts p = elim (Option-cases (head_at p s)) [
  | inl e ↦ rw (e, pop_loop)
  | inr (top, e) ↦ rw (e, pop_loop) (pop_loop-n_shards k s ts (pop_page s top ts p))
]

alloc_shards-n_shards :
    (tries k s ts : ℕ) (p : Pool) → (alloc_shards tries k s ts p).0.n_shards ≡ p.n_shards
unfolding alloc_shards
alloc_shards-n_shards zero k s ts p = refl
alloc_shards-n_shards (suc tries) zero s ts p = refl
alloc_shards-n_shards (suc tries) (suc k) s ts p =
    alloc_shards-n_shards tries (suc k - length (pop_loop (suc k) s ts p).1) ((s + 1) % p.n_shards)
      ts (pop_loop (suc k) s ts p).0
    ∙ pop_loop-n_shards (suc k) s ts p

touch-n_shards : (ids : List ℕ) (ts : ℕ) (p : Pool) → (touch ids ts p).n_shards ≡ p.n_shards
unfolding touch
touch-n_shards [] ts p = refl
touch-n_shards (id ∷ ids) ts p = touch-n_shards ids ts _

step-n_shards : (p : Pool) (c : Call) → (step p c).n_shards ≡ p.n_shards
unfolding step alloc free_pages leak_scan
step-n_shards p (allocs n hash ts) = ground (
  arith,
  alloc_shards-n_shards p.n_shards n (hash % p.n_shards) ts p,
  push_loop-n_shards (alloc_shards p.n_shards n (hash % p.n_shards) ts p).1
      (alloc_shards p.n_shards n (hash % p.n_shards) ts p).0,
)
step-n_shards p (frees ids) = push_loop-n_shards ids p
step-n_shards p (touches ids ts) = touch-n_shards ids ts p
step-n_shards p (scans ttl_ms now) = push_loop-n_shards (orphans ttl_ms now 0 p.meta) p

-- Any history of calls in which pages are given back or touched only while they are in use, and
-- given back once, leaves each free page on its own shard's stack, once, and no other page on a stack.
pub run-Inv : (p : Pool) (cs : List Call) → 0 < p.n_shards → AllLegal p cs → Inv p → Inv (run p cs)
unfolding run
run-Inv p [] some_shard h v = v
run-Inv p (c ∷ cs) some_shard h v =
    run-Inv (step p c) cs (omega (arith, step-n_shards p c)) h.1 (step-Inv p c some_shard h.0 v)
