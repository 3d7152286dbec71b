-- ===== src/Tests/Numas.antt =====
-- `PagePoolNUMA` (src/pool_numa.cpp) on two nodes of four pages.
use amp.Prelude.{ℕ, zero, suc, ◌<◌, ◌≡◌, refl, [], ◌∷◌, none, some, map, arith}
use amp.PoolFast
use amp.PoolFast.Pages.{Inv}
use amp.PoolNuma.{Numa, pool_at, with_pool, global_id, alloc, free_pages}
use amp.PoolNuma.Alloc.{IsNuma, Granted, alloc_some_node}
use amp.PoolNuma.Free.{free_pages_of_node}
use amp.Tests.FastPools.{four, four-Inv}

abbrev two : Numa
two = record { n_nodes = 2; per_node = four ∷ four ∷ []; pages_per_node = 4 }

pools-Inv : (i : ℕ) → i < 2 → Inv (pool_at two i)
pools-Inv zero h = four-Inv
pools-Inv (suc zero) h = four-Inv
pools-Inv (suc (suc i)) h = absurd (omega arith)

sharded : (i : ℕ) → i < 2 → 0 < (pool_at two i).n_shards
sharded zero h = omega arith
sharded (suc zero) h = omega arith
sharded (suc (suc i)) h = absurd (omega arith)

two-IsNuma : IsNuma two
two-IsNuma = record { nodes = refl; some_node = omega arith; pools = pools-Inv; sharded = sharded }

-- The node of the thread is served first, and the other one when it cannot be.
alloc_runs :
    ((alloc 2 0 (some 1) (λ i. 50) two).1 ≡ 6 ∷ 4 ∷ [])
    × ((alloc 3 0 (some 1) (λ i. 50) (alloc 2 0 (some 1) (λ i. 50) two).0).1 ≡ 2 ∷ 0 ∷ 3 ∷ [])
unfolding alloc PoolFast.alloc
alloc_runs = (refl, refl)

alloc_some_node_example : Granted two 3 (alloc 3 7 none (λ i. 50) two).1
alloc_some_node_example =
    alloc_some_node two 3 7 (λ i. 50) (omega arith) (λ i. omega arith) two-IsNuma none 1
      (omega arith) (omega arith)

free_pages_of_node_example :
    free_pages (map (global_id two 1) (2 ∷ 3 ∷ [])) two
    ≡ some (with_pool two 1 (PoolFast.free_pages (2 ∷ 3 ∷ []) four))
free_pages_of_node_example =
    free_pages_of_node two 1 2 (3 ∷ []) (omega arith) (omega arith, (omega arith, tt))
