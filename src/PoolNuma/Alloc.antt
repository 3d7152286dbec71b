-- ===== src/PoolNuma/Alloc.antt =====
-- `PagePoolNUMA::alloc` (src/pool_numa.cpp): the fallback between the nodes.
use amp.Prelude.{
  ℕ, zero, suc, ◌+◌, ◌*◌, ◌≤◌, ◌<◌, ◌≡◌, ◌≢◌, refl, ap, ◌∙◌, true, false, List, [], ◌∷◌, Option,
  none, some, length, map, total, count, ltb, ◌==◌, arith, ◌⊎◌, inl, inr, Bool-cases, ==_iff,
  get_or-set,
}
use amp.PoolFast
use amp.PoolFast.Stacks.{free_bit, is_free}
use amp.PoolFast.Pages.{Inv}
use amp.PoolFast.Alloc.{alloc_across_shards, alloc_short_counts}
use amp.PoolNuma.{Numa, pool_at, global_id, is_empty, alloc_at, fallback, first_node, alloc}

abbrev pub free_at : Numa → ℕ → ℕ
free_at m node = total free_bit (pool_at m node).meta

-- The pools of the nodes are well formed.
pub record IsNuma (m : Numa) : Type 0 where
  pub nodes : length m.per_node ≡ m.n_nodes
  pub some_node : 0 < m.n_nodes
  pub pools : (i : ℕ) → i < m.n_nodes → Inv (pool_at m i)
  pub sharded : (i : ℕ) → i < m.n_nodes → 0 < (pool_at m i).n_shards

-- `out` are the global ids of `n` pages of one node, none twice and each free before.
pub record Granted (m : Numa) (n : ℕ) (out : List ℕ) : Type 0 where
  pub node : ℕ
  pub local_ids : List ℕ
  pub inside : node < m.n_nodes
  pub global : out ≡ map (global_id m node) local_ids
  pub enough : length local_ids ≡ n
  pub free_before : (i : ℕ) → count i local_ids ≤ is_free (pool_at m node).meta i

is_empty-map : (f : ℕ → ℕ) (xs : List ℕ) → 0 < length xs → is_empty (map f xs) ≡ false
is_empty-map f [] h = absurd (omega arith)
is_empty-map f (x ∷ xs) h = refl

module _ (m : Numa) (n tid : ℕ) (now : ℕ → ℕ) (pos : 0 < n) (ticks : (i : ℕ) → 0 < now i)
    (good : IsNuma m) where
  first_node-lt : (current : Option ℕ) → first_node current tid m < m.n_nodes
  first_node-lt none = omega (arith, good.some_node)
  first_node-lt (some node) = ground (arith, good.some_node)

  alloc_at-cases :
      (node : ℕ) (m' : Numa)
      → node < m.n_nodes
      → pool_at m' node ≡ pool_at m node
      → m'.pages_per_node ≡ m.pages_per_node
      → let r = alloc_at n tid now node m' in
        ((is_empty r.1 ≡ false) × Granted m n r.1)
        ⊎ ((is_empty r.1 ≡ true)
            × (free_at m node < n)
            × ((j : ℕ) → j ≢ node → pool_at r.0 j ≡ pool_at m' j)
            × (r.0.n_nodes ≡ m'.n_nodes)
            × (r.0.pages_per_node ≡ m'.pages_per_node))
  unfolding alloc_at
  alloc_at-cases node m' inside same pp = elim (Bool-cases (ltb (free_at m node) n)) [
    | inl short ↦
        let s =
          alloc_short_counts n tid (now node) (pool_at m node) (ticks node)
            (good.sharded node inside) (ground arith) (good.pools node inside) in
        let none_here = ap (λ p. (PoolFast.alloc n tid (now node) p).1) same ∙ s.0 in
        inr (
          ap (λ xs. is_empty (map (global_id m' node) xs)) none_here,
          ground arith,
          (λ j ne. ground (
            arith,
            get_or-set m'.per_node node j (PoolFast.alloc n tid (now node) (pool_at m' node)).0
                (PoolFast.bare 0 0 0),
          )),
          refl,
          refl,
        )
    | inr enough ↦
        let g =
          alloc_across_shards n tid (now node) (pool_at m node) (ticks node)
            (good.sharded node inside) (ground arith) (good.pools node inside) in
        let local_ids = (PoolFast.alloc n tid (now node) (pool_at m' node)).1 in
        let as_before : local_ids ≡ (PoolFast.alloc n tid (now node) (pool_at m node)).1 =
          ap (λ p. (PoolFast.alloc n tid (now node) p).1) same in
        let many : length local_ids ≡ n = ap length as_before ∙ g.0 in
        inl (
          is_empty-map (global_id m' node) local_ids (omega arith),
          record {
            node = node;
            local_ids = local_ids;
            inside = inside;
            global = ap (λ k. map (λ l. node * k + l) local_ids) pp;
            enough = many;
            free_before = λ i. omega (arith, g.1 i, ap (λ xs. count i xs) as_before);
          },
        )
  ]

  -- The loop finds a node with enough pages, wherever it comes after `alt`.
  fallback-Granted :
      (node i k alt : ℕ) (m' : Numa)
      → alt ≤ i
      → i < alt + k
      → alt + k ≡ m.n_nodes
      → i ≢ node
      → n ≤ free_at m i
      → ((j : ℕ) → alt ≤ j → j ≢ node → pool_at m' j ≡ pool_at m j)
      → m'.pages_per_node ≡ m.pages_per_node
      → Granted m n (fallback n tid now node k alt m').1
  unfolding fallback
  fallback-Granted node i zero alt m' lo hi end ne enough same pp = absurd (omega arith)
  fallback-Granted node i (suc k) alt m' lo hi end ne enough same pp =
      elim (Bool-cases (alt == node)) [
        | inl here ↦
            let alt_is : alt ≡ node = (==_iff alt node).0 here in
            let later : alt + 1 ≤ i = ground (arith, ne) in
            rw (here, fallback)
              (fallback-Granted node i k (alt + 1) m' later (omega arith) (omega arith) ne enough
                (λ j le. same j (omega arith)) pp)
        | inr there ↦
            let alt_ne : alt ≢ node = λ e. absurd (ground arith) in
            elim (alloc_at-cases alt m' (omega arith) (same alt (omega arith) alt_ne) pp) [
              | inl (full, got) ↦ rw (there, full, fallback) got
              | inr (empty, short, others, nodes, pages) ↦
                  let alt_not_i : alt ≢ i = λ e. omega (arith, ap (free_at m) e) in
                  let r = alloc_at n tid now alt m' in
                  rw (there, empty, fallback)
                    (fallback-Granted node i k (alt + 1) r.0 (ground (arith, alt_not_i))
                      (omega arith) (omega arith) ne enough
                      (λ j le off. others j (λ e. omega arith) ∙ same j (omega arith) off)
                      (pages ∙ pp))
            ]
      ]

  -- Where some node has `n` free pages, whichever node the thread runs on, `alloc` hands out the
  -- global ids of `n` distinct free pages of one node; the pools are well formed and the clocks have
  -- started.
  pub alloc_some_node :
      (current : Option ℕ) (i : ℕ)
      → i < m.n_nodes
      → n ≤ free_at m i
      → Granted m n (alloc n tid current now m).1
  unfolding alloc
  alloc_some_node current i inside enough =
      let node = first_node current tid m in
      let node_inside : node < m.n_nodes = first_node-lt current in
      elim (alloc_at-cases node m node_inside refl refl) [
        | inl (full, got) ↦ rw (full, alloc) got
        | inr (empty, short, others, nodes, pages) ↦
            let ne : i ≢ node = λ e. omega (arith, ap (free_at m) e) in
            let r = alloc_at n tid now node m in
            rw (empty, alloc)
              (fallback-Granted node i m.n_nodes 0 r.0 (omega arith) (omega arith) (omega arith) ne
                enough (λ j le off. others j off) pages)
      ]
