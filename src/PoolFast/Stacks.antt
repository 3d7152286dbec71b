-- ===== src/PoolFast/Stacks.antt =====
-- The free stacks of `PagePoolFast` (src/pool_fast.cpp) as lists, and what one pop and one push do
-- to them.
use amp.Prelude.{
  ℕ, ◌<◌, ◌≡◌, refl, subst, List, [], ◌∷◌, Option, none, some, ltb, if◌then◌else◌, length, get_or,
  set, count, ◌==◌, ◌&&◌, arith, get_or-set, length-set, ◌⊎◌, inl, inr, Bool-cases,
}
use amp.PoolFast.{PageMeta, blank_meta, Pool, meta_at, head_at, next_at, pop_page, push_page}

-- The list `xs` is linked from `h` on.
abbrev pub Chain : List (Option ℕ) → Option ℕ → List ℕ → Type 0
Chain next h [] = h ≡ none
Chain next h (x ∷ xs) = (h ≡ some x) × Chain next (get_or next x none) xs

-- A write to the link of a page outside the list leaves it linked.
Chain-set :
    (next : List (Option ℕ)) (h v : Option ℕ) (i : ℕ) (xs : List ℕ)
    → count i xs ≡ 0
    → Chain next h xs
    → Chain (set next i v) h xs
Chain-set next h v i [] e c = c
Chain-set next h v i (x ∷ xs) e c =
    let same : get_or next x none ≡ get_or (set next i v) x none =
      ground (arith, get_or-set next i x v none) in
    (
      c.0,
      subst (λ o. Chain (set next i v) o xs) same
          (Chain-set next (get_or next x none) v i xs (ground arith) c.1),
    )

Chain-eq :
    (next : List (Option ℕ)) {h k : Option ℕ} {xs ys : List ℕ}
    → h ≡ k
    → xs ≡ ys
    → Chain next h xs
    → Chain next k ys
Chain-eq next {k} {xs} p q c = subst (λ zs. Chain next k zs) q (subst (λ o. Chain next o xs) p c)

-- A family of lists, changed at one place.
abbrev pub update : (ℕ → List ℕ) → ℕ → List ℕ → ℕ → List ℕ
update f s xs t = if s == t then xs else f t

-- 1 if there is a page `i`, it is free, and it belongs to shard `s`.
abbrev pub free_in : List PageMeta → ℕ → ℕ → ℕ
free_in meta s i =
    if ltb i (length meta)
      && (get_or meta i blank_meta).shard == s
      && (get_or meta i blank_meta).touch_us == 0
    then 1
    else 0

-- The stack of each shard is a list: each free page stands on the stack of its own shard, once,
-- and nothing else does.
pub record Linked (stacks : ℕ → List ℕ) (p : Pool) : Type 0 where
  pub chained : (s : ℕ) → Chain p.next (head_at p s) (stacks s)
  pub exact : (s i : ℕ) → count i (stacks s) ≡ free_in p.meta s i
  pub links : length p.next ≡ length p.meta
  pub shards : length p.heads ≡ p.n_shards
  pub owned : (i : ℕ) → i < length p.meta → (meta_at p i).shard < p.n_shards

-- The top of a stack is a free page of the pool, of that shard.
pub Linked-top :
    (stacks : ℕ → List ℕ) (p : Pool) (s top : ℕ) (xs : List ℕ)
    → Linked stacks p
    → stacks s ≡ top ∷ xs
    → (top < length p.meta)
      × ((meta_at p top).shard ≡ s)
      × ((meta_at p top).touch_us ≡ 0)
      × (s < p.n_shards)
Linked-top stacks p s top xs v e =
    let t : (top < length p.meta) × ((meta_at p top).shard ≡ s) × ((meta_at p top).touch_us ≡ 0) =
      ground (arith, v.exact s top) in
    (t.0, t.1, t.2, ground (arith, v.owned top t.0))

pub pop-Linked :
    (stacks : ℕ → List ℕ) (p : Pool) (s top ts : ℕ) (xs : List ℕ)
    → 0 < ts
    → Linked stacks p
    → stacks s ≡ top ∷ xs
    → Linked (update stacks s xs) (pop_page s top ts p)
unfolding pop_page
pop-Linked stacks p s top ts xs pos v e = record {
  chained = λ t. elim (Bool-cases (s == t)) [
    | inl here ↦
        Chain-eq p.next
          (ground (
            arith,
            get_or-set p.heads s t (next_at p top) none,
            v.shards,
            Linked-top stacks p s top xs v e,
          ))
          (ground arith) (Chain-eq p.next refl e (v.chained s)).1
    | inr other ↦
        Chain-eq p.next (ground (arith, get_or-set p.heads s t (next_at p top) none)) (ground arith)
          (v.chained t)
  ];
  exact = λ t i. ground (
    arith,
    v.exact t i,
    v.exact s i,
    v.exact s top,
    length-set p.meta top m,
    get_or-set p.meta top i m blank_meta,
  );
  links = omega (arith, v.links, length-set p.meta top m);
  shards = omega (arith, v.shards, length-set p.heads s (next_at p top));
  owned = λ i h. ground (
    arith,
    v.owned i,
    v.owned top,
    length-set p.meta top m,
    get_or-set p.meta top i m blank_meta,
  );
}
  where
    m : PageMeta
    m = record (meta_at p top) { touch_us = ts }

-- Each shard's stack is linked.
abbrev pub Chained : (ℕ → List ℕ) → List (Option ℕ) → List (Option ℕ) → Type 0
Chained stacks next heads = (s : ℕ) → Chain next (get_or heads s none) (stacks s)

-- A page that stands on no stack is put on top of one.
pub push-Chained :
    (stacks : ℕ → List ℕ) (next heads : List (Option ℕ)) (s id : ℕ)
    → s < length heads
    → id < length next
    → ((t : ℕ) → count id (stacks t) ≡ 0)
    → Chained stacks next heads
    → Chained
        (update stacks s (id ∷ stacks s))
        (set next id (get_or heads s none))
        (set heads s (some id))
push-Chained stacks next heads s id hs hid absent c t = elim (Bool-cases (s == t)) [
  | inl here ↦
      Chain-eq links {xs = id ∷ stacks s} (ground (arith, get_or-set heads s t (some id) none))
        (ground arith)
        (
          refl,
          Chain-eq links (ground (arith, get_or-set next id id (get_or heads s none) none)) refl (
              Chain-set next (get_or heads s none) (get_or heads s none) id (stacks s) (absent s)
                (c s)),
        )
  | inr other ↦
      Chain-eq links (ground (arith, get_or-set heads s t (some id) none)) (ground arith)
        (Chain-set next (get_or heads t none) (get_or heads s none) id (stacks t) (absent t) (c t))
]
  where
    links : List (Option ℕ)
    links = set next id (get_or heads s none)

pub push-Linked :
    (stacks : ℕ → List ℕ) (p : Pool) (id : ℕ)
    → id < length p.meta
    → 0 < (meta_at p id).touch_us
    → Linked stacks p
    → Linked
        (update stacks (meta_at p id).shard (id ∷ stacks (meta_at p id).shard))
        (push_page id p)
unfolding push_page
push-Linked stacks p id h used v = record {
  chained =
      push-Chained stacks p.next p.heads m.shard id (omega (arith, v.shards, v.owned id h))
        (omega (arith, v.links)) (λ t. ground (arith, v.exact t id)) v.chained;
  exact = λ t i.
      ground (arith, v.exact t i, length-set p.meta id m, get_or-set p.meta id i m blank_meta);
  links = omega (arith, v.links, length-set p.meta id m, length-set p.next id (head_at p m.shard));
  shards = omega (arith, v.shards, length-set p.heads m.shard (some id));
  owned = λ i hi.
      ground
        (arith, v.owned i, v.owned id, length-set p.meta id m, get_or-set p.meta id i m blank_meta);
}
  where
    m : PageMeta
    m = record (meta_at p id) { touch_us = 0 }

-- Whether page `i` is a page of the pool, and free.
abbrev pub is_free : List PageMeta → ℕ → ℕ
is_free meta i = if ltb i (length meta) && (get_or meta i blank_meta).touch_us == 0 then 1 else 0

abbrev pub free_bit : PageMeta → ℕ
free_bit m = if m.touch_us == 0 then 1 else 0

-- What the head of a shard says of its stack.
pub Chain-cases :
    (next : List (Option ℕ)) (h : Option ℕ) (xs : List ℕ)
    → Chain next h xs
    → ((h ≡ none) × (xs ≡ [])) ⊎ ((top : ℕ) × (ys : List ℕ) × (h ≡ some top) × (xs ≡ top ∷ ys))
Chain-cases next h [] c = inl (c, refl)
Chain-cases next h (x ∷ xs) c = inr (x, xs, c.0, refl)
