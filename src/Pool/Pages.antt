-- ===== src/Pool/Pages.antt =====
-- What the methods of `PagePool` (src/pool.cpp) do to each page, and to no other.
use amp.Prelude.{
  ℕ, zero, suc, ◌+◌, ◌-◌, ◌/◌, ◌≤◌, ◌<◌, ◌≡◌, refl, Bool, true, List, [], ◌∷◌, ltb, ◌==◌,
  if◌then◌else◌, length, get_or, bit, count, total, get_or-set, set_of_le, get_or_of_le, arith, not,
  has, ◌&&◌,
}
use amp.Pool.{
  Page, blank_page, Pool, page, returned, give_back, free_pages, orphans, reclaim, leak_scan,
}
use amp.Pool.Invariant.{
  is_free, length-give_back, is_free-set, Inv, Tied-give, InRange, free_pages-Inv,
}

-- The test of `leak_scan`: in use, and touched more than `ttl_ms` milliseconds ago.
abbrev pub is_stale : ℕ → ℕ → Page → Bool
is_stale ttl_ms now q = not q.freed && ltb ttl_ms ((now - q.touch_ts) / 1000000)

pub page-give_back :
    (id i : ℕ) (p : Pool)
    → page (give_back id p) i ≡ (if id == i then returned (page p i) else page p i)
unfolding give_back
page-give_back id i p = ground (
  arith,
  get_or-set p.pages id i (returned (page p id)) blank_page,
  set_of_le p.pages id (returned (page p id)),
)

-- `free_pages` resets the pages it is given that are in use, and changes no other page.
pub page-free_pages :
    (ids : List ℕ) (i : ℕ) (p : Pool)
    → page (free_pages ids p) i
      ≡ (if has i ids && not (page p i).freed then returned (page p i) else page p i)
unfolding free_pages
page-free_pages [] i p = refl
page-free_pages (id ∷ ids) i p =
    ground (
      arith,
      page-give_back id i p,
      page-free_pages ids i p,
      page-free_pages ids i (give_back id p),
    )

pub page-reclaim :
    (ids : List ℕ) (i : ℕ) (p : Pool)
    → page (reclaim ids p) i ≡ (if has i ids then returned (page p i) else page p i)
unfolding reclaim
page-reclaim [] i p = refl
page-reclaim (id ∷ ids) i p =
    ground (arith, page-give_back id i p, page-reclaim ids i (give_back id p))

orphans_below :
    (ttl_ms now k j : ℕ) (qs : List Page) → j < k → count j (orphans ttl_ms now k qs) ≡ 0
unfolding orphans
orphans_below ttl_ms now k j [] h = refl
orphans_below ttl_ms now k j (q ∷ qs) h = ground (arith, orphans_below ttl_ms now (k + 1) j qs)

-- 1 if there is a page `i` and `leak_scan` reclaims it.
abbrev pub stale_at : ℕ → ℕ → List Page → ℕ → ℕ
stale_at ttl_ms now qs i =
    if ltb i (length qs) then bit (is_stale ttl_ms now (get_or qs i blank_page)) else 0

orphans_at :
    (ttl_ms now k i j : ℕ) (qs : List Page)
    → j ≡ k + i
    → count j (orphans ttl_ms now k qs) ≡ stale_at ttl_ms now qs i
unfolding orphans
orphans_at ttl_ms now k i j [] e = ground arith
orphans_at ttl_ms now k zero j (q ∷ qs) e = ground (arith, orphans_below ttl_ms now (k + 1) j qs)
orphans_at ttl_ms now k (suc i) j (q ∷ qs) e = ground (arith, orphans_at ttl_ms now (k + 1) i j qs)

-- The first loop of `leak_scan` collects each stale page once, and nothing else.
pub count-orphans :
    (ttl_ms now i : ℕ) (qs : List Page)
    → count i (orphans ttl_ms now 0 qs) ≡ stale_at ttl_ms now qs i
count-orphans ttl_ms now i qs = orphans_at ttl_ms now 0 i i qs (omega arith)

length-orphans :
    (ttl_ms now k : ℕ) (qs : List Page)
    → length (orphans ttl_ms now k qs) ≡ total (λ q. bit (is_stale ttl_ms now q)) qs
unfolding orphans
length-orphans ttl_ms now k [] = refl
length-orphans ttl_ms now k (q ∷ qs) = ground (arith, length-orphans ttl_ms now (k + 1) qs)

is_free-give_back :
    (id i : ℕ) (p : Pool)
    → is_free (give_back id p).pages i
      ≡ (if id == i then bit (ltb i (length p.pages)) else is_free p.pages i)
unfolding give_back
is_free-give_back id i p = ground (arith, is_free-set p.pages id i (returned (page p id)))

reclaim-Inv :
    (ids : List ℕ) (p : Pool)
    → ((i : ℕ) → count i ids + is_free p.pages i ≤ bit (ltb i (length p.pages)))
    → Inv p
    → Inv (reclaim ids p)
unfolding reclaim
reclaim-Inv [] p h v = v
reclaim-Inv (id ∷ ids) p h v =
    reclaim-Inv ids (give_back id p) (λ i. fresh i)
      (unfold give_back in
        Tied-give p.pages id p.free_list (returned (page p id)) refl (ground (arith, h id))
          (ground (arith, h id)) v)
  where
    fresh :
        (i : ℕ)
        → count i ids + is_free (give_back id p).pages i
          ≤ bit (ltb i (length (give_back id p).pages))
    fresh i = ground (arith, h i, h id, is_free-give_back id i p, length-give_back id p)

-- `leak_scan` keeps the invariant, reclaims exactly the stale pages and returns their number.
pub leak_scan_lem :
    (ttl_ms now : ℕ) (p : Pool)
    → Inv p
    → Inv (leak_scan ttl_ms now p).0
      × ((leak_scan ttl_ms now p).1 ≡ total (λ q. bit (is_stale ttl_ms now q)) p.pages)
      × ((i : ℕ)
          → page (leak_scan ttl_ms now p).0 i
            ≡ (if is_stale ttl_ms now (page p i) then returned (page p i) else page p i))
unfolding leak_scan
leak_scan_lem ttl_ms now p v = (
  reclaim-Inv (orphans ttl_ms now 0 p.pages) p
      (λ i. ground (arith, count-orphans ttl_ms now i p.pages)) v,
  length-orphans ttl_ms now 0 p.pages,
  λ i. ground (
    arith,
    count-orphans ttl_ms now i p.pages,
    page-reclaim (orphans ttl_ms now 0 p.pages) i p,
    get_or_of_le p.pages i blank_page,
  ),
)

free_pages_of_freed :
    (ids : List ℕ) (p : Pool)
    → ((i : ℕ) → has i ids ≡ true → (page p i).freed ≡ true)
    → free_pages ids p ≡ p
unfolding free_pages
free_pages_of_freed [] p h = refl
free_pages_of_freed (id ∷ ids) p h =
    ground (arith, h id, free_pages_of_freed ids p (λ i hi. h i (ground arith)))

-- A second `free_pages` of the same ids does nothing: a double free is harmless.
pub free_pages_again :
    (ids : List ℕ) (p : Pool) → free_pages ids (free_pages ids p) ≡ free_pages ids p
free_pages_again ids p =
    free_pages_of_freed ids (free_pages ids p) (λ i h. ground (arith, page-free_pages ids i p))

-- `free_pages` on pages of the pool keeps the invariant, and resets exactly the given pages that
-- are in use.
pub free_pages_lem :
    (ids : List ℕ) (p : Pool)
    → InRange p ids
    → Inv p
    → Inv (free_pages ids p)
      × ((i : ℕ)
          → page (free_pages ids p) i
            ≡ (if has i ids && not (page p i).freed then returned (page p i) else page p i))
      × (free_pages ids (free_pages ids p) ≡ free_pages ids p)
free_pages_lem ids p r v =
    (free_pages-Inv ids p r v, λ i. page-free_pages ids i p, free_pages_again ids p)
