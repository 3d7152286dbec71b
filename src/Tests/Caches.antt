-- ===== src/Tests/Caches.antt =====
-- `CacheStore` and `CacheStoreFast` (src/cache.cpp, src/cache_fast.cpp) on payloads of a few bytes.
use amp.Prelude.{◌≡◌, ◌≢◌, [], ◌∷◌, some, arith}
use amp.Cache
use amp.Cache.{Key}
use amp.Cache.RoundTrip.{get-put}
use amp.CacheFast
use amp.CacheFast.Refinement.{Coherent, get-IsTransparent, put-IsTransparent}

abbrev empty : Cache.Store
empty = record { bins = []; tmps = [] }

abbrev on_disk : Cache.Store
on_disk = Cache.put (1 ∷ []) (10 ∷ 20 ∷ 30 ∷ []) empty

get-put_example :
    (Cache.get (1 ∷ []) on_disk ≡ some (10 ∷ 20 ∷ 30 ∷ []))
    × ((other : Key) → other ≢ (1 ∷ []) → Cache.get other on_disk ≡ Cache.get other empty)
get-put_example = get-put (1 ∷ []) (10 ∷ 20 ∷ 30 ∷ []) empty (omega arith)

-- A store of at most four bytes.
abbrev tight : CacheFast.Store
tight = CacheFast.init on_disk 4

tight-Coherent : Coherent tight.disk tight.l1
tight-Coherent k e found = grind arith

get-IsTransparent_example :
    let r = CacheFast.get (1 ∷ []) tight in
    (r.1 ≡ Cache.get (1 ∷ []) on_disk) × Coherent on_disk r.0.l1 × (r.0.disk ≡ on_disk)
get-IsTransparent_example = get-IsTransparent (1 ∷ []) tight tight-Coherent

put-IsTransparent_example :
    let st' = CacheFast.put (2 ∷ []) (7 ∷ 8 ∷ []) tight in
    Coherent st'.disk st'.l1
    × ((CacheFast.get (2 ∷ []) st').1 ≡ some (7 ∷ 8 ∷ []))
    × ((other : Key) → other ≢ (2 ∷ []) → (CacheFast.get other st').1 ≡ Cache.get other on_disk)
put-IsTransparent_example =
    put-IsTransparent (2 ∷ []) (7 ∷ 8 ∷ []) tight (omega arith) tight-Coherent
