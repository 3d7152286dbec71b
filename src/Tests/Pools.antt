-- ===== src/Tests/Pools.antt =====
-- `PagePool` (src/pool.cpp) on a pool of four pages.
use amp.Prelude.{
  ℕ, zero, suc, ◌+◌, ◌≤◌, ◌≡◌, refl, [], ◌∷◌, Option, some, length, total, count, has, bit,
  if◌then◌else◌, not, ◌&&◌, arith,
}
use amp.Pool.{
  Pool, Page, page, blank_page, init, alloc, free_pages, leak_scan, taken, returned, u64,
}
use amp.Pool.Invariant.{Inv, is_free}
use amp.Pool.Pages.{is_stale, free_pages_lem, leak_scan_lem}
use amp.Pool.Alloc.{alloc_lem, alloc_short}

abbrev malloc : ℕ → Option ℕ
malloc i = some (i + 100)

abbrev made : ℕ → Page
made ptr = record blank_page { dptr = ptr; bytes = 64 }

-- What the constructor makes of four pages.
abbrev four : Pool
four = record {
  page_bytes = 64;
  pages = made 100 ∷ made 101 ∷ made 102 ∷ made 103 ∷ [];
  free_list = 3 ∷ 2 ∷ 1 ∷ 0 ∷ [];
  alloc_cnt = 0;
  free_cnt = 0;
}

-- Page 3 is in use since 7 seconds.
abbrev leased : Pool
leased = record four {
  pages = made 100 ∷ made 101 ∷ made 102 ∷ taken "a" 7_000_000_000 (made 103) ∷ [];
  free_list = 2 ∷ 1 ∷ 0 ∷ [];
  alloc_cnt = 1;
}

init_runs : init malloc 4 64 ≡ some four
unfolding init
init_runs = refl

-- The last page comes first, a second request takes the next ones, and a third fails.
alloc_runs :
    (alloc "a" 1 7_000_000_000 four ≡ (leased, 3 ∷ []))
    × ((alloc "b" 2 8 leased).1 ≡ 2 ∷ 1 ∷ [])
    × (alloc "c" 4 9 leased ≡ (leased, []))
unfolding alloc
alloc_runs = (refl, refl, refl)

free_runs :
    ((free_pages (3 ∷ 3 ∷ 1 ∷ []) leased).free_list ≡ 3 ∷ 2 ∷ 1 ∷ 0 ∷ [])
    × ((free_pages (3 ∷ 3 ∷ 1 ∷ []) leased).free_cnt ≡ 1)
unfolding free_pages
free_runs = (refl, refl)

-- At 8 seconds a limit of half a second has run out, and one of two seconds has not.
leak_scan_runs :
    ((leak_scan 500 8_000_000_000 leased).1 ≡ 1) × ((leak_scan 2000 8_000_000_000 leased).1 ≡ 0)
unfolding leak_scan
leak_scan_runs = (refl, refl)

four_exact : (i : ℕ) → count i four.free_list ≡ is_free four.pages i
four_exact zero = refl
four_exact (suc zero) = refl
four_exact (suc (suc zero)) = refl
four_exact (suc (suc (suc zero))) = refl
four_exact (suc (suc (suc (suc i)))) = ground arith

four-Inv : Inv four
four-Inv = record { exact = four_exact; counted = refl }

leased_exact : (i : ℕ) → count i leased.free_list ≡ is_free leased.pages i
leased_exact zero = refl
leased_exact (suc zero) = refl
leased_exact (suc (suc zero)) = refl
leased_exact (suc (suc (suc zero))) = refl
leased_exact (suc (suc (suc (suc i)))) = ground arith

leased-Inv : Inv leased
leased-Inv = record { exact = leased_exact; counted = refl }

alloc_lem_example :
    let r = alloc "b" 2 9 leased in
    (length r.1 ≡ 2)
    × ((i : ℕ) → count i r.1 + count i r.0.free_list ≡ count i leased.free_list)
    × ((i : ℕ) → count i r.1 ≤ is_free leased.pages i)
    × ((i : ℕ) → page r.0 i ≡ (if has i r.1 then taken "b" 9 (page leased i) else page leased i))
    × (r.0.alloc_cnt ≡ u64 3)
alloc_lem_example = alloc_lem "b" 2 9 leased leased-Inv (omega arith)

alloc_short_example : alloc "c" 4 9 leased ≡ (leased, [])
alloc_short_example = alloc_short "c" 4 9 leased (omega arith)

free_pages_lem_example :
    let q = free_pages (3 ∷ 3 ∷ 1 ∷ []) leased in
    Inv q
    × ((i : ℕ)
        → page q i ≡ (
            if has i (3 ∷ 3 ∷ 1 ∷ []) && not (page leased i).freed
            then returned (page leased i)
            else page leased i))
    × (free_pages (3 ∷ 3 ∷ 1 ∷ []) q ≡ q)
free_pages_lem_example = free_pages_lem (3 ∷ 3 ∷ 1 ∷ []) leased (omega arith) leased-Inv

leak_scan_lem_example :
    let r = leak_scan 500 8_000_000_000 leased in
    Inv r.0
    × (r.1 ≡ total (λ q. bit (is_stale 500 8_000_000_000 q)) leased.pages)
    × ((i : ℕ)
        → page r.0 i ≡ (
            if is_stale 500 8_000_000_000 (page leased i)
            then returned (page leased i)
            else page leased i))
leak_scan_lem_example = leak_scan_lem 500 8_000_000_000 leased leased-Inv
