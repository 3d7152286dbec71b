-- ===== src/PoolNuma.antt =====
-- include/pool_numa.hpp and src/pool_numa.cpp: a `PagePoolFast` for each NUMA node, and global ids.
-- What libnuma says is an argument: the number of nodes and the node of the running thread, where
-- `none` is an answer below 0. `now` gives the reading of the clock at each node, which a call
-- visits once at most.
pub mod Alloc
pub mod Free
use amp.Prelude.{
  ℕ, zero, suc, ◌+◌, ◌*◌, ◌/◌, ◌%◌, ◌<◌, Bool, true, false, List, [], ◌∷◌, Option, none, some,
  if◌then◌else◌, length, get_or, set, map, ltb, ◌==◌,
}
use amp.PoolFast

-- `class PagePoolNUMA`
pub record Numa : Type 0 where
  pub n_nodes : ℕ
  pub per_node : List PoolFast.Pool
  pub pages_per_node : ℕ

abbrev pub pool_at : Numa → ℕ → PoolFast.Pool
pool_at m node = get_or m.per_node node (PoolFast.bare 0 0 0)

abbrev pub with_pool : Numa → ℕ → PoolFast.Pool → Numa
with_pool m node p = record m { per_node = set m.per_node node p }

-- The loop of the constructor, with `k` nodes to go; `malloc` is AMP_MALLOC at each node.
unfoldable pub init_nodes : (ℕ → ℕ → Option ℕ) → ℕ → ℕ → ℕ → ℕ → Option (List PoolFast.Pool)
init_nodes malloc pages_per_node page_bytes zero i = some []
init_nodes malloc pages_per_node page_bytes (suc k) i =
    elim (PoolFast.init (malloc i) pages_per_node page_bytes 16) [
      | none ↦ none
      | some p ↦ elim (init_nodes malloc pages_per_node page_bytes k (i + 1)) [
        | none ↦ none
        | some ps ↦ some (p ∷ ps)
      ]
    ]

-- `PagePoolNUMA::PagePoolNUMA`
unfoldable pub init : (ℕ → ℕ → Option ℕ) → ℕ → ℕ → ℕ → Option Numa
unfolding init_nodes
init malloc n_nodes pages_per_node page_bytes =
    elim (init_nodes malloc pages_per_node page_bytes n_nodes 0) [
      | none ↦ none
      | some ps ↦
          some (record { n_nodes = n_nodes; per_node = ps; pages_per_node = pages_per_node })
    ]

-- `PagePoolNUMA::global_id` and `split`
abbrev pub global_id : Numa → ℕ → ℕ → ℕ
global_id m node local_id = node * m.pages_per_node + local_id

abbrev pub split : Numa → ℕ → ℕ × ℕ
split m gid = (gid / m.pages_per_node, gid % m.pages_per_node)

abbrev pub is_empty : List ℕ → Bool
is_empty [] = true
is_empty (x ∷ xs) = false

-- `alloc` on one node, with the ids made global.
unfoldable pub alloc_at : ℕ → ℕ → (ℕ → ℕ) → ℕ → Numa → Numa × List ℕ
alloc_at n tid now node m =
    let r = PoolFast.alloc n tid (now node) (pool_at m node) in
    (with_pool m node r.0, map (global_id m node) r.1)

-- The fallback loop from node `alt` on, with `k` nodes to go.
unfoldable pub fallback : ℕ → ℕ → (ℕ → ℕ) → ℕ → ℕ → ℕ → Numa → Numa × List ℕ
unfolding alloc_at
fallback n tid now node zero alt m = (m, [])
fallback n tid now node (suc k) alt m =
    let r = alloc_at n tid now alt m in
    elim (alt == node) [
      | true ↦ fallback n tid now node k (alt + 1) m
      | false ↦ elim (is_empty r.1) [ true ↦ fallback n tid now node k (alt + 1) r.0 | false ↦ r ]
    ]

-- The node that `alloc` tries first.
abbrev pub first_node : Option ℕ → ℕ → Numa → ℕ
first_node none tid m = tid % m.n_nodes
first_node (some node) tid m = if ltb node m.n_nodes then node else tid % m.n_nodes

-- `PagePoolNUMA::alloc`
unfoldable pub alloc : ℕ → ℕ → Option ℕ → (ℕ → ℕ) → Numa → Numa × List ℕ
unfolding fallback alloc_at
alloc n tid current now m =
    let node = first_node current tid m in
    let r = alloc_at n tid now node m in
    elim (is_empty r.1) [ true ↦ fallback n tid now node m.n_nodes 0 r.0 | false ↦ r ]

-- The local ids of the global ones that belong to `node`, in order.
abbrev pub locals_of : Numa → ℕ → List ℕ → List ℕ
locals_of m node [] = []
locals_of m node (g ∷ gids) =
    let rest = locals_of m node gids in if (split m g).0 == node then (split m g).1 ∷ rest else rest

-- Whether each id belongs to a node: `per[n]` is out of range for any other.
abbrev pub all_owned : Numa → List ℕ → Bool
all_owned m [] = true
all_owned m (g ∷ gids) =
    let rest = all_owned m gids in if ltb (split m g).0 m.n_nodes then rest else false

-- The last loop of `free_pages` and `touch`, from node `i` on with `k` nodes to go.
unfoldable pub each_node : (List ℕ → PoolFast.Pool → PoolFast.Pool) → List ℕ → ℕ → ℕ → Numa → Numa
each_node call gids zero i m = m
each_node call gids (suc k) i m =
    let mine = locals_of m i gids in
    each_node call gids k (i + 1)
      (if is_empty mine then m else with_pool m i (call mine (pool_at m i)))

-- `PagePoolNUMA::free_pages`; `none` is an id outside of every node.
unfoldable pub free_pages : List ℕ → Numa → Option Numa
unfolding each_node
free_pages gids m =
    if all_owned m gids then some (each_node PoolFast.free_pages gids m.n_nodes 0 m) else none

-- `PagePoolNUMA::touch`
unfoldable pub touch : List ℕ → ℕ → Numa → Option Numa
unfolding each_node
touch gids ts m =
    if all_owned m gids
    then some (each_node (λ ids p. PoolFast.touch ids ts p) gids m.n_nodes 0 m)
    else none

-- The loop of `leak_scan`: the pools after it, and the sum.
unfoldable pub scan_nodes : ℕ → (ℕ → ℕ) → ℕ → List PoolFast.Pool → List PoolFast.Pool × ℕ
scan_nodes ttl_ms now i [] = ([], 0)
scan_nodes ttl_ms now i (p ∷ ps) =
    let r = PoolFast.leak_scan ttl_ms (now i) p in
    let rest = scan_nodes ttl_ms now (i + 1) ps in (r.0 ∷ rest.0, r.1 + rest.1)

-- `PagePoolNUMA::leak_scan`
unfoldable pub leak_scan : ℕ → (ℕ → ℕ) → Numa → Numa × ℕ
unfolding scan_nodes
leak_scan ttl_ms now m =
    let r = scan_nodes ttl_ms now 0 m.per_node in (record m { per_node = r.0 }, r.1)

-- `PagePoolNUMA::stats`
unfoldable pub sum_stats : List PoolFast.Pool → PoolFast.Stats
sum_stats [] = record { total = 0; in_use = 0; alloc_cnt = 0; free_cnt = 0 }
sum_stats (p ∷ ps) =
    let s = PoolFast.stats p in
    let rest = sum_stats ps in
    record {
      total = s.total + rest.total;
      in_use = s.in_use + rest.in_use;
      alloc_cnt = PoolFast.u64 (s.alloc_cnt + rest.alloc_cnt);
      free_cnt = PoolFast.u64 (s.free_cnt + rest.free_cnt);
    }

unfoldable pub stats : Numa → PoolFast.Stats
unfolding sum_stats
stats m = sum_stats m.per_node
