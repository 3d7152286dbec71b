-- ===== src/PoolFast/DoubleFree.antt =====
-- `PagePoolFast::free_pages` (src/pool_fast.cpp) does not ask whether a page is free already, as
-- `PagePool::free_pages` does.
use amp.Prelude.{
  ℕ, zero, suc, ◌-◌, ◌%◌, ◌<◌, ◌≡◌, refl, sym, ap, subst, false, List, [], ◌∷◌, Option, none, some,
  ltb, length, get_or, set, replicate, arith, get_or-set, length-set, length-replicate,
}
use mathlib.Core.List.{append-nil}
use native.Mathlib.Nat.{mod-eq_of_lt}
use amp.PoolFast.{
  PageMeta, blank_meta, Pool, meta_at, head_at, next_at, free_pages, push_page, push_loop, pop_page,
  pop_loop, alloc_shards, alloc,
}
use amp.PoolFast.Pages.{Inv}

-- Page `id` is the top of shard `s` and linked to itself.
record Looped (s id : ℕ) (p : Pool) : Type 0 where
  inside : s < length p.heads
  top : head_at p s ≡ some id
  link : next_at p id ≡ some id

pop-Looped : (s id ts : ℕ) (p : Pool) → Looped s id p → Looped s id (pop_page s id ts p)
unfolding pop_page
pop-Looped s id ts p l = record {
  inside = omega (arith, l.inside, length-set p.heads s (next_at p id));
  top = ground (arith, get_or-set p.heads s s (next_at p id) none, l.inside, l.link);
  link = l.link;
}

pop_loop-Looped :
    (k s id ts : ℕ) (p : Pool) → Looped s id p → (pop_loop k s ts p).1 ≡ replicate k id
unfolding pop_loop
pop_loop-Looped zero s id ts p l = refl
pop_loop-Looped (suc k) s id ts p l =
    rw (l.top, pop_loop)
      (ap (◌∷◌ id) (pop_loop-Looped k s id ts (pop_page s id ts p) (pop-Looped s id ts p l)))

alloc_shards_of_zero : (tries s ts : ℕ) (p : Pool) → alloc_shards tries 0 s ts p ≡ (p, [])
unfolding alloc_shards
alloc_shards_of_zero zero s ts p = refl
alloc_shards_of_zero (suc tries) s ts p = refl

alloc_shards-Looped :
    (tries n s id ts : ℕ) (p : Pool)
    → Looped s id p
    → (alloc_shards (suc tries) n s ts p).1 ≡ replicate n id
unfolding alloc_shards
alloc_shards-Looped tries zero s id ts p l = refl
alloc_shards-Looped tries (suc n) s id ts p l =
    let e = pop_loop-Looped (suc n) s id ts p l in
    let none_left : suc n - length (pop_loop (suc n) s ts p).1 ≡ 0 =
      omega (arith, ap length e, length-replicate (suc n) id) in
    rw (none_left, alloc_shards_of_zero, append-nil) e

-- A page freed twice links to itself on top of its shard.
free_twice-Looped :
    (id : ℕ) (p : Pool)
    → Inv p
    → id < length p.meta
    → let q = free_pages (id ∷ id ∷ []) p in
      Looped (meta_at p id).shard id q × (q.n_shards ≡ p.n_shards)
unfolding free_pages push_loop push_page
free_twice-Looped id p (stacks, v) h = (
  record {
    inside = ground (arith, v.owned id h, v.shards, kept, size_once, size_twice);
    top = ground (
      arith,
      v.owned id h,
      v.shards,
      kept,
      size_once,
      get_or-set heads m.shard m.shard (some id) none,
    );
    link = ground (
      arith,
      v.owned id h,
      v.shards,
      v.links,
      kept,
      get_or-set p.heads m.shard m.shard (some id) none,
      length-set p.next id (head_at p m.shard),
      get_or-set (set p.next id (head_at p m.shard)) id id (some id) none,
    );
  },
  refl,
)
  where
    m : PageMeta
    m = meta_at p id

    heads : List (Option ℕ)
    heads = set p.heads m.shard (some id)

    kept :
        get_or (set p.meta id (record m { touch_us = 0 })) id blank_meta ≡ record m { touch_us = 0 }
    kept = ground (arith, get_or-set p.meta id id (record m { touch_us = 0 }) blank_meta)

    size_once : length heads ≡ length p.heads
    size_once = length-set p.heads m.shard (some id)

    size_twice : length (set heads m.shard (some id)) ≡ length heads
    size_twice = length-set heads m.shard (some id)

-- After a double free of a page, `alloc` from that page's shard hands out the one page for all of
-- the `n` pages that it is asked for.
pub alloc_after_double_free :
    (id n ts : ℕ) (p : Pool)
    → Inv p
    → id < length p.meta
    → (alloc n (meta_at p id).shard ts (free_pages (id ∷ id ∷ []) p)).1 ≡ replicate n id
unfolding alloc
alloc_after_double_free id n ts p v h =
    let (l, e) = free_twice-Looped id p v h in
    let q = free_pages (id ∷ id ∷ []) p in
    let s = (meta_at p id).shard in
    let many = q.n_shards in
    let owned : s < q.n_shards = omega (arith, v.1.owned id h) in
    let here : s % q.n_shards ≡ s = mod-eq_of_lt owned in
    let some_shard : q.n_shards ≡ suc (q.n_shards - 1) = omega arith in
    let out : (alloc_shards q.n_shards n (s % q.n_shards) ts q).1 ≡ replicate n id =
      subst (λ t. (alloc_shards q.n_shards n t ts q).1 ≡ replicate n id) (sym here)
        (subst (λ t. (alloc_shards t n s ts q).1 ≡ replicate n id) (sym some_shard)
          (alloc_shards-Looped (q.n_shards - 1) n s id ts q l)) in
    let full : ltb (length (alloc_shards q.n_shards n (s % q.n_shards) ts q).1) n ≡ false =
      ground (arith, ap length out, length-replicate n id) in
    rw (full, alloc) out
