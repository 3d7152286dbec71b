-- ===== src/PoolNuma/Free.antt =====
-- The global ids of src/pool_numa.cpp: `split` and `global_id`, and `free_pages` of what `alloc` gave.
use amp.Prelude.{
  ℕ, zero, suc, ◌+◌, ◌*◌, ◌/◌, ◌%◌, ◌≤◌, ◌<◌, ◌≡◌, ◌≢◌, refl, ap, ◌∙◌, true, false, List, [], ◌∷◌,
  some, map, ◌==◌, arith, inl, inr, Bool-cases, ==_iff, All,
}
use amp.PoolFast
use amp.PoolNuma.{
  Numa, pool_at, with_pool, global_id, split, is_empty, locals_of, all_owned, each_node, free_pages,
}

div_global : (node l p : ℕ) → l < p → (node * p + l) / p ≡ node
div_global node l p h = grind arith

mod_global : (node l p : ℕ) → l < p → (node * p + l) % p ≡ l
mod_global node l p h = grind arith

back_global : (g p : ℕ) → 0 < p → (g / p) * p + g % p ≡ g
back_global g p h = grind arith

-- `global_id` and `split` undo each other, on the local ids of a pool and on every global id.
pub split-global_id :
    (m : Numa)
    → 0 < m.pages_per_node
    → ((node l : ℕ) → l < m.pages_per_node → split m (global_id m node l) ≡ (node, l))
      × ((g : ℕ) → global_id m (split m g).0 (split m g).1 ≡ g)
split-global_id m pos = (
  λ node l h. rw (div_global node l m.pages_per_node h, mod_global node l m.pages_per_node h) refl,
  λ g. back_global g m.pages_per_node pos,
)

module _ (m : Numa) (node : ℕ) where
  locals_of-own :
      (ls : List ℕ)
      → All (λ l. l < m.pages_per_node) ls
      → locals_of m node (map (global_id m node) ls) ≡ ls
  locals_of-own [] h = refl
  locals_of-own (l ∷ ls) h = ground (
    arith,
    div_global node l m.pages_per_node h.0,
    mod_global node l m.pages_per_node h.0,
    locals_of-own ls h.1,
  )

  locals_of-other :
      (i : ℕ) (ls : List ℕ)
      → i ≢ node
      → All (λ l. l < m.pages_per_node) ls
      → locals_of m i (map (global_id m node) ls) ≡ []
  locals_of-other i [] ne h = refl
  locals_of-other i (l ∷ ls) ne h = ground (
    arith,
    ne,
    div_global node l m.pages_per_node h.0,
    mod_global node l m.pages_per_node h.0,
    locals_of-other i ls ne h.1,
  )

  all_owned_lem :
      (ls : List ℕ)
      → node < m.n_nodes
      → All (λ l. l < m.pages_per_node) ls
      → all_owned m (map (global_id m node) ls) ≡ true
  all_owned_lem [] inside h = refl
  all_owned_lem (l ∷ ls) inside h =
      ground (arith, div_global node l m.pages_per_node h.0, all_owned_lem ls inside h.1)

  module _ (call : List ℕ → PoolFast.Pool → PoolFast.Pool) (gids : List ℕ) where
    -- The loop passes over nodes that own no id.
    each_node-skip :
        (k i : ℕ) (m' : Numa)
        → ((j : ℕ) → j ≢ node → locals_of m' j gids ≡ [])
        → node < i
        → each_node call gids k i m' ≡ m'
    unfolding each_node
    each_node-skip zero i m' others past = refl
    each_node-skip (suc k) i m' others past =
        rw (others i (λ e. omega arith), each_node)
          (each_node-skip k (i + 1) m' others (omega arith))

    each_node-one :
        (k i : ℕ)
        → ((j : ℕ) → j ≢ node → locals_of m j gids ≡ [])
        → is_empty (locals_of m node gids) ≡ false
        → i ≤ node
        → node < i + k
        → each_node call gids k i m
          ≡ with_pool m node (call (locals_of m node gids) (pool_at m node))
    unfolding each_node
    each_node-one zero i others mine lo hi = absurd (omega arith)
    each_node-one (suc k) i others mine lo hi = elim (Bool-cases (i == node)) [
      | inl here ↦
          let i_is : i ≡ node = (==_iff i node).0 here in
          let past =
            each_node-skip k (node + 1)
              (with_pool m node (call (locals_of m node gids) (pool_at m node))) others
              (omega arith) in
          rw (i_is, mine, each_node) past
      | inr there ↦
          let ne : i ≢ node = λ e. absurd (ground arith) in
          rw (others i ne, each_node)
            (each_node-one k (i + 1) others mine (ground (arith, ne)) (omega arith))
    ]

  -- The global ids that `alloc` makes of a node's pages go back to that node alone: `free_pages` does
  -- what `PagePoolFast::free_pages` does there with the local ids, and changes no other node.
  pub free_pages_of_node :
      (l : ℕ) (ls : List ℕ)
      → node < m.n_nodes
      → All (λ l. l < m.pages_per_node) (l ∷ ls)
      → free_pages (map (global_id m node) (l ∷ ls)) m
        ≡ some (with_pool m node (PoolFast.free_pages (l ∷ ls) (pool_at m node)))
  unfolding free_pages
  free_pages_of_node l ls inside small =
      let gids = map (global_id m node) (l ∷ ls) in
      let mine = locals_of-own (l ∷ ls) small in
      let loop =
        each_node-one PoolFast.free_pages gids m.n_nodes 0
          (λ j ne. locals_of-other j (l ∷ ls) ne small) (ap is_empty mine) (omega arith)
          (omega arith) in
      rw (all_owned_lem (l ∷ ls) inside small, free_pages)
        (ap some
          (loop ∙ ap (λ xs. with_pool m node (PoolFast.free_pages xs (pool_at m node))) mine))
