-- ===== src/PoolFast/Pages.antt =====
-- What `alloc` and `free_pages` of `PagePoolFast` (src/pool_fast.cpp) do to each page.
use amp.Prelude.{
  ℕ, ◌+◌, ◌-◌, ◌%◌, ◌<◌, ◌≤◌, ◌≡◌, refl, List, [], ◌∷◌, none, ltb, if◌then◌else◌, length, get_or,
  total, count, ◌==◌, ◌&&◌, not, arith, get_or-set, length-set, total-set, total-eq-zero, has,
}
use native.Mathlib.Decide.{dec_le}
use amp.PoolFast.{
  PageMeta, blank_meta, Pool, meta_at, head_at, u64, push_page, push_loop, free_pages,
}
use amp.PoolFast.Stacks.{Linked, Chain-cases, push-Linked, free_bit}

-- The pool's stacks are lists of its free pages.
abbrev pub Inv : Pool → Type 0
Inv p = (stacks : ℕ → List ℕ) × Linked stacks p

-- 1 if `i` is a page that is in use.
abbrev pub is_used : List PageMeta → ℕ → ℕ
is_used meta i =
    if ltb i (length meta) && not ((get_or meta i blank_meta).touch_us == 0) then 1 else 0

-- What giving the pages `ids` back leads to, from `p` to `q`.
pub record Freed (p q : Pool) (ids : List ℕ) : Type 0 where
  pub stacks : ℕ → List ℕ
  pub linked : Linked stacks q
  pub cleared :
      (i : ℕ)
      → meta_at q i ≡ (if has i ids then record (meta_at p i) { touch_us = 0 } else meta_at p i)
  pub size : length q.meta ≡ length p.meta
  pub balance : total free_bit q.meta ≡ total free_bit p.meta + length ids
  pub counters : (q.alloc_cnt ≡ p.alloc_cnt) × (q.free_cnt ≡ p.free_cnt) × (q.n_shards ≡ p.n_shards)

-- The premise of a push, and what is left of it for the pushes that follow.
push_premise :
    (id : ℕ) (ids : List ℕ) (p : Pool)
    → ((i : ℕ) → count i (id ∷ ids) ≤ is_used p.meta i)
    → (id < length p.meta)
      × (0 < (meta_at p id).touch_us)
      × ((i : ℕ) → count i ids ≤ is_used (push_page id p).meta i)
unfolding push_page
push_premise id ids p h = (
  ground (arith, h id),
  ground (arith, h id),
  λ i. ground (arith, h i, h id, get_or-set p.meta id i m blank_meta, length-set p.meta id m),
)
  where
    m : PageMeta
    m = record (meta_at p id) { touch_us = 0 }

Freed-cons :
    (id : ℕ) (ids : List ℕ) (p q : Pool)
    → id < length p.meta
    → 0 < (meta_at p id).touch_us
    → Freed (push_page id p) q ids
    → Freed p q (id ∷ ids)
unfolding push_page
Freed-cons id ids p q inside used rest = record {
  stacks = rest.stacks;
  linked = rest.linked;
  cleared = λ i. ground (arith, rest.cleared i, get_or-set p.meta id i m blank_meta);
  size = omega (arith, rest.size, length-set p.meta id m);
  balance = ground (arith, rest.balance, total-set free_bit p.meta id m blank_meta);
  counters = rest.counters;
}
  where
    m : PageMeta
    m = record (meta_at p id) { touch_us = 0 }

-- Pages in use, none given twice, go back on their stacks; no other page changes.
pub push_loop-Freed :
    (ids : List ℕ) (stacks : ℕ → List ℕ) (p : Pool)
    → ((i : ℕ) → count i ids ≤ is_used p.meta i)
    → Linked stacks p
    → Freed p (push_loop ids p) ids
unfolding push_loop
push_loop-Freed [] stacks p h v = record {
  stacks = stacks;
  linked = v;
  cleared = λ i. refl;
  size = refl;
  balance = omega arith;
  counters = (refl, refl, refl);
}
push_loop-Freed (id ∷ ids) stacks p h v =
    let (inside, used, later) = push_premise id ids p h in
    Freed-cons id ids p (push_loop ids (push_page id p)) inside used
      (push_loop-Freed ids _ (push_page id p) later (push-Linked stacks p id inside used v))

-- `free_pages` on pages in use, none given twice: they are free afterwards and on their stacks, no
-- other page changes, and `free_cnt` counts them.
pub free_pages_in_use :
    (ids : List ℕ) (p : Pool)
    → ((i : ℕ) → count i ids ≤ is_used p.meta i)
    → Inv p
    → Inv (free_pages ids p)
      × ((i : ℕ)
          → meta_at (free_pages ids p) i
            ≡ (if has i ids then record (meta_at p i) { touch_us = 0 } else meta_at p i))
      × (total free_bit (free_pages ids p).meta ≡ total free_bit p.meta + length ids)
      × ((free_pages ids p).free_cnt ≡ u64 (p.free_cnt + length ids))
      × ((free_pages ids p).alloc_cnt ≡ p.alloc_cnt)
unfolding free_pages
free_pages_in_use ids p h (stacks, v) =
    let f = push_loop-Freed ids stacks p h v in
    let l = f.linked in
    (
      (
        f.stacks,
        record {
          chained = l.chained;
          exact = l.exact;
          links = l.links;
          shards = l.shards;
          owned = l.owned;
        },
      ),
      f.cleared,
      f.balance,
      ground (arith, f.counters),
      f.counters.0,
    )

-- A pool whose shards are all dry has no free page.
pub dry_total :
    (stacks : ℕ → List ℕ) (q : Pool)
    → Linked stacks q
    → ((t : ℕ) → t < q.n_shards → head_at q t ≡ none)
    → total free_bit q.meta ≡ 0
dry_total stacks q v h = total-eq-zero free_bit q.meta blank_meta λ i hi.
    let s = (meta_at q i).shard in
    ground (
      arith,
      v.exact s i,
      v.owned i hi,
      h s,
      Chain-cases q.next (head_at q s) (stacks s) (v.chained s),
    )

-- From any shard on, every shard is reached.
pub cover : (s t n : ℕ) → s < n → t < n → (j : ℕ) × (j < n) × ((s + j) % n ≡ t)
cover s t n hs ht = elim (dec_le s t) [
  | yes le ↦ (t - s, omega arith, grind arith)
  | no gt ↦ (t + n - s, omega arith, grind arith)
]
