-- ===== src/PoolFast/Taking.antt =====
-- `PagePoolFast::alloc` (src/pool_fast.cpp): the pages that its loops take off the stacks.
use amp.Prelude.{
  ℕ, zero, suc, ◌+◌, ◌-◌, ◌%◌, ◌<◌, ◌≤◌, ◌≡◌, refl, ap, subst, ◌∙◌, List, [], ◌∷◌, ◌++◌, none, some,
  if◌then◌else◌, length, total, count, arith, get_or-set, length-set, inl, inr, total-set,
  count-append, length-append, has,
}
use native.Mathlib.Nat.{mod-add-mod}
use amp.PoolFast.{blank_meta, Pool, meta_at, head_at, next_at, pop_page, pop_loop, alloc_shards}
use amp.PoolFast.Stacks.{Linked, Chain-cases, Linked-top, pop-Linked, is_free, free_bit, update}

-- What taking the pages `out` with the stamp `ts` leads to, from `p` to `q`.
pub record Taken (ts : ℕ) (p q : Pool) (out : List ℕ) : Type 0 where
  pub stacks : ℕ → List ℕ
  pub linked : Linked stacks q
  pub stamped :
      (i : ℕ)
      → meta_at q i ≡ (if has i out then record (meta_at p i) { touch_us = ts } else meta_at p i)
  pub once : (i : ℕ) → count i out ≤ is_free p.meta i
  pub size : length q.meta ≡ length p.meta
  pub balance : total free_bit q.meta + length out ≡ total free_bit p.meta
  pub dry : (t : ℕ) → head_at p t ≡ none → head_at q t ≡ none
  pub shards : q.n_shards ≡ p.n_shards
  pub counters : (q.alloc_cnt ≡ p.alloc_cnt) × (q.free_cnt ≡ p.free_cnt)

pub Taken-none : (ts : ℕ) (stacks : ℕ → List ℕ) (p : Pool) → Linked stacks p → Taken ts p p []
Taken-none ts stacks p v = record {
  stacks = stacks;
  linked = v;
  stamped = λ i. refl;
  once = λ i. omega arith;
  size = refl;
  balance = omega arith;
  dry = λ t e. e;
  shards = refl;
  counters = (refl, refl);
}

pub Taken-append :
    (ts : ℕ) (p q r : Pool) (xs ys : List ℕ)
    → 0 < ts
    → Taken ts p q xs
    → Taken ts q r ys
    → Taken ts p r (xs ++ ys)
Taken-append ts p q r xs ys pos a b = record {
  stacks = b.stacks;
  linked = b.linked;
  stamped = λ i. ground (arith, a.stamped i, b.stamped i, count-append i xs ys);
  once = λ i. ground (arith, a.once i, b.once i, a.stamped i, a.size, count-append i xs ys);
  size = omega (arith, a.size, b.size);
  balance = omega (arith, a.balance, b.balance, length-append xs ys);
  dry = λ t e. b.dry t (a.dry t e);
  shards = omega (arith, a.shards, b.shards);
  counters = (omega (arith, a.counters, b.counters), omega (arith, a.counters, b.counters));
}

Taken-pop :
    (ts : ℕ) (stacks : ℕ → List ℕ) (p : Pool) (s top : ℕ) (ys : List ℕ)
    → 0 < ts
    → Linked stacks p
    → head_at p s ≡ some top
    → stacks s ≡ top ∷ ys
    → Taken ts p (pop_page s top ts p) (top ∷ [])
unfolding pop_page
Taken-pop ts stacks p s top ys pos v h e =
    let t = Linked-top stacks p s top ys v e in
    let m = record (meta_at p top) { touch_us = ts } in
    record {
      stacks = update stacks s ys;
      linked = unfold pop_page in pop-Linked stacks p s top ts ys pos v e;
      stamped = λ i. ground (arith, get_or-set p.meta top i m blank_meta, t);
      once = λ i. ground (arith, t);
      size = length-set p.meta top m;
      balance = ground (arith, total-set free_bit p.meta top m blank_meta, t);
      dry = λ u none_there. ground (arith, get_or-set p.heads s u (next_at p top) none);
      shards = refl;
      counters = (refl, refl);
    }

-- The inner loop takes pages off one shard; if it takes fewer than it wants, that shard is dry.
pub pop_loop-Taken :
    (k s ts : ℕ) (stacks : ℕ → List ℕ) (p : Pool)
    → 0 < ts
    → Linked stacks p
    → Taken ts p (pop_loop k s ts p).0 (pop_loop k s ts p).1
      × (length (pop_loop k s ts p).1 ≤ k)
      × (length (pop_loop k s ts p).1 < k → head_at (pop_loop k s ts p).0 s ≡ none)
unfolding pop_loop
pop_loop-Taken zero s ts stacks p pos v =
    (Taken-none ts stacks p v, omega arith, λ h. absurd (omega arith))
pop_loop-Taken (suc k) s ts stacks p pos v =
    elim (Chain-cases p.next (head_at p s) (stacks s) (v.chained s)) [
      | inl (h, e) ↦ rw (h, pop_loop) (Taken-none ts stacks p v, omega arith, λ _. h)
      | inr (top, ys, h, e) ↦
          let one = Taken-pop ts stacks p s top ys pos v h e in
          let rest = pop_loop-Taken k s ts one.stacks (pop_page s top ts p) pos one.linked in
          rw (h, pop_loop)
            (
              Taken-append ts p (pop_page s top ts p) _ (top ∷ []) _ pos one rest.0,
              omega (arith, rest.1),
              λ less. rest.2 (omega arith),
            )
    ]

mod_shift : (s j n : ℕ) → ((s + 1) % n + j) % n ≡ (s + suc j) % n
mod_shift s j n = mod-add-mod (s + 1) n j ∙ ap (λ t. t % n) (omega arith)

shards_dry :
    (ts : ℕ) (q r : Pool) (ys : List ℕ) (s n tries : ℕ)
    → s < n
    → Taken ts q r ys
    → head_at q s ≡ none
    → q.n_shards ≡ n
    → ((j : ℕ) → j < tries → head_at r (((s + 1) % n + j) % q.n_shards) ≡ none)
    → (j : ℕ) → j < suc tries
    → head_at r ((s + j) % n) ≡ none
shards_dry ts q r ys s n tries inside rest here e there zero h =
    let same : s ≡ (s + 0) % n = grind arith in
    subst (λ t. head_at r t ≡ none) same (rest.dry s here)
shards_dry ts q r ys s n tries inside rest here e there (suc j) h =
    subst (λ t. head_at r t ≡ none) (mod_shift s j n)
      (subst (λ m. head_at r (((s + 1) % n + j) % m) ≡ none) e (there j (omega arith)))

-- The outer loop takes at most `k` pages; if it takes fewer, each shard that it visits is dry.
pub alloc_shards-Taken :
    (tries k s ts : ℕ) (stacks : ℕ → List ℕ) (p : Pool)
    → 0 < ts
    → 0 < p.n_shards
    → s < p.n_shards
    → Linked stacks p
    → let r = alloc_shards tries k s ts p in
      Taken ts p r.0 r.1
      × (length r.1 ≤ k)
      × (length r.1 < k → (j : ℕ) → j < tries → head_at r.0 ((s + j) % p.n_shards) ≡ none)
unfolding alloc_shards
alloc_shards-Taken zero k s ts stacks p pos some_shard inside v =
    (Taken-none ts stacks p v, omega arith, λ _ j h. absurd (omega arith))
alloc_shards-Taken (suc tries) zero s ts stacks p pos some_shard inside v =
    (Taken-none ts stacks p v, omega arith, λ h. absurd (omega arith))
alloc_shards-Taken (suc tries) (suc k) s ts stacks p pos some_shard inside v =
    let (one, few, dry) = pop_loop-Taken (suc k) s ts stacks p pos v in
    let q = (pop_loop (suc k) s ts p).0 in
    let out = (pop_loop (suc k) s ts p).1 in
    let (rest, fewer, drier) =
      alloc_shards-Taken tries (suc k - length out) ((s + 1) % p.n_shards) ts one.stacks q pos
        (omega (arith, one.shards)) (omega (arith, one.shards)) one.linked in
    (
      Taken-append ts p q _ out _ pos one rest,
      omega (
        arith,
        length-append out (alloc_shards tries (suc k - length out) ((s + 1) % p.n_shards) ts q).1,
      ),
      λ less.
          let short : length out
                + length (alloc_shards tries (suc k - length out) ((s + 1) % p.n_shards) ts q).1
              < suc k =
            omega (
              arith,
              length-append out
                  (alloc_shards tries (suc k - length out) ((s + 1) % p.n_shards) ts q).1,
            ) in
          shards_dry ts q _ _ s p.n_shards tries inside rest (dry (omega arith)) one.shards
            (drier (omega arith)),
    )
