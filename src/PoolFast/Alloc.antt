-- ===== src/PoolFast/Alloc.antt =====
-- `PagePoolFast::alloc` (src/pool_fast.cpp): when it succeeds, and what a failure leaves behind.
use amp.Prelude.{
  ℕ, ◌+◌, ◌%◌, ◌<◌, ◌≤◌, ◌≡◌, refl, ap, subst, ◌∙◌, true, false, List, [], none, ltb, if◌then◌else◌,
  length, total, count, arith, inl, inr, Bool-cases, has,
}
use native.Mathlib.Nat.{mod-lt}
use amp.PoolFast.{Pool, meta_at, head_at, u64, alloc_shards, alloc}
use amp.PoolFast.Stacks.{is_free, free_bit}
use amp.PoolFast.Taking.{Taken, alloc_shards-Taken}
use amp.PoolFast.Pages.{Inv, dry_total, cover, free_pages_in_use}

-- The outcome of the loops of `alloc`: all that was wanted, or every free page of the pool.
record Swept (n ts : ℕ) (p q : Pool) (out : List ℕ) : Type 0 where
  taken : Taken ts p q out
  most : length out ≤ n
  rest : length out < n → total free_bit q.meta ≡ 0

sweep :
    (n hash ts : ℕ) (p : Pool)
    → 0 < ts
    → 0 < p.n_shards
    → Inv p
    → let r = alloc_shards p.n_shards n (hash % p.n_shards) ts p in Swept n ts p r.0 r.1
sweep n hash ts p pos some_shard (stacks, v) =
    let s = hash % p.n_shards in
    let inside : s < p.n_shards = mod-lt hash some_shard in
    let (t, few, dry) = alloc_shards-Taken p.n_shards n s ts stacks p pos some_shard inside v in
    let q = (alloc_shards p.n_shards n s ts p).0 in
    record {
      taken = t;
      most = few;
      rest = λ less. dry_total t.stacks q t.linked λ u hu.
          let (j, hj, e) = cover s u p.n_shards inside (omega (arith, t.shards)) in
          subst (λ x. head_at q x ≡ none) e (dry less j hj);
    }

Inv-counters : (a f : ℕ) (p : Pool) → Inv p → Inv (record p { alloc_cnt = a; free_cnt = f })
Inv-counters a f p (stacks, l) = (
  stacks,
  record {
    chained = l.chained;
    exact = l.exact;
    links = l.links;
    shards = l.shards;
    owned = l.owned;
  },
)

-- Where the pool has `n` free pages, whatever shards they are on, `alloc` hands out `n` of them,
-- none twice and each free before; it stamps those pages and changes no other.
pub alloc_across_shards :
    (n hash ts : ℕ) (p : Pool)
    → 0 < ts
    → 0 < p.n_shards
    → n ≤ total free_bit p.meta
    → Inv p
    → let r = alloc n hash ts p in
      (length r.1 ≡ n)
      × ((i : ℕ) → count i r.1 ≤ is_free p.meta i)
      × ((i : ℕ)
          → meta_at r.0 i
            ≡ (if has i r.1 then record (meta_at p i) { touch_us = ts } else meta_at p i))
      × Inv r.0
      × (total free_bit r.0.meta + n ≡ total free_bit p.meta)
      × (r.0.alloc_cnt ≡ u64 (p.alloc_cnt + n))
      × (r.0.free_cnt ≡ p.free_cnt)
unfolding alloc
alloc_across_shards n hash ts p pos some_shard enough v =
    let w = sweep n hash ts p pos some_shard v in
    let t = w.taken in
    let r = alloc_shards p.n_shards n (hash % p.n_shards) ts p in
    let all_of_them : length r.1 ≡ n = elim (Bool-cases (ltb (length r.1) n)) [
      | inl less ↦ absurd (ground (arith, w.rest, t.balance))
      | inr _ ↦ ground (arith, w.most)
    ] in
    let full : ltb (length r.1) n ≡ false = ground arith in
    rw (full, alloc)
      (
        all_of_them,
        t.once,
        t.stamped,
        Inv-counters (u64 (r.0.alloc_cnt + n)) r.0.free_cnt r.0 (t.stacks, t.linked),
        omega (arith, t.balance),
        ap (λ a. u64 (a + n)) t.counters.0,
        t.counters.1,
      )

-- Where it has fewer, `alloc` returns no id and every page is as it was; `alloc_cnt` stays, but
-- `free_cnt` has grown by the number of free pages, which were taken and given back.
pub alloc_short_counts :
    (n hash ts : ℕ) (p : Pool)
    → 0 < ts
    → 0 < p.n_shards
    → total free_bit p.meta < n
    → Inv p
    → let r = alloc n hash ts p in
      (r.1 ≡ [])
      × Inv r.0
      × ((i : ℕ) → meta_at r.0 i ≡ meta_at p i)
      × (r.0.alloc_cnt ≡ p.alloc_cnt)
      × (r.0.free_cnt ≡ u64 (p.free_cnt + total free_bit p.meta))
unfolding alloc
alloc_short_counts n hash ts p pos some_shard short v =
    let w = sweep n hash ts p pos some_shard v in
    let t = w.taken in
    let r = alloc_shards p.n_shards n (hash % p.n_shards) ts p in
    let less : length r.1 < n = omega (arith, t.balance) in
    let test : ltb (length r.1) n ≡ true = ground arith in
    let (inv, cleared, _, freed, kept) =
      free_pages_in_use r.1 r.0 (λ i. ground (arith, t.once i, t.stamped i, t.size))
        (t.stacks, t.linked) in
    rw (test, alloc)
      (
        refl,
        inv,
        λ i. ground (arith, cleared i, t.stamped i, t.once i),
        kept ∙ t.counters.0,
        freed ∙ ap u64 (omega (arith, t.counters.1, t.balance, w.rest less)),
      )
