-- ===== src/CacheFast.antt =====
-- include/cache_fast.hpp and src/cache_fast.cpp: a table in memory in front of the disk store, with
-- clock eviction. A call runs without interference from another. A `std::list` iterator is the key
-- it points to. Sizes are sums of the sizes of vectors in memory, which do not reach 2^64.
pub mod Refinement
use amp.Prelude.{
  ℕ, zero, suc, ◌+◌, ◌-◌, ◌%◌, ◌^◌, ◌≡◌, Bool, true, false, List, [], ◌∷◌, ◌++◌, Option, none, some,
  if◌then◌else◌, length, leb, ◌==◌,
}
use amp.Cache
use amp.Cache.{Key, lookup, assign, remove}

-- `CacheStoreFast::Entry`
pub record Entry : Type 0 where
  pub data_bytes : List ℕ
  pub recently_used : Bool

-- A counter of 64 bits.
abbrev pub u64 : ℕ → ℕ
u64 n = n % 2 ^ 64

-- `CacheStoreFast::Stats`
pub record Stats : Type 0 where
  pub l1_hits : ℕ
  pub l2_hits : ℕ
  pub misses : ℕ
  pub evictions : ℕ

-- `class CacheStoreFast`
pub record Store : Type 0 where
  pub disk : Cache.Store
  pub l1 : List (Key × Entry)
  pub clock_order : List Key
  pub clock_pos : List (Key × Key)
  pub l1_bytes : ℕ
  pub max_l1_bytes : ℕ
  pub counters : Stats

-- `CacheStoreFast::CacheStoreFast`
abbrev pub init : Cache.Store → ℕ → Store
init disk max_l1_bytes = record {
  disk = disk;
  l1 = [];
  clock_order = [];
  clock_pos = [];
  l1_bytes = 0;
  max_l1_bytes = max_l1_bytes;
  counters = record { l1_hits = 0; l2_hits = 0; misses = 0; evictions = 0 };
}

-- `CacheStoreFast::l1_count`
abbrev pub l1_count : Store → ℕ
l1_count st = length st.l1

-- The entry `e` of `k` without its second chance.
unfoldable pub clear_bit : Key → Entry → Store → Store
clear_bit k e st = record st { l1 = assign k (record e { recently_used = false }) st.l1 }

-- The entry `e` of `k` evicted, but for `clock_order`.
unfoldable pub evict : Key → Entry → Store → Store
evict k e st = record st {
  l1_bytes = st.l1_bytes - length e.data_bytes;
  clock_pos = remove k st.clock_pos;
  l1 = remove k st.l1;
  counters = record (st.counters) { evictions = u64 (st.counters.evictions + 1) };
}

-- The inner loop of `evict_to_fit` from `it` on: what it leaves of the list, and the table. The
-- local `current` is `l1_bytes_`, which only this loop changes under the lock.
unfoldable pub sweep : ℕ → List Key → Store → List Key × Store
unfolding clear_bit evict
sweep needed [] st = ([], st)
sweep needed (k ∷ ks) st = elim (leb (st.l1_bytes + needed) st.max_l1_bytes) [
  | true ↦ (k ∷ ks, st)
  | false ↦ elim (lookup k st.l1) [
    | none ↦ sweep needed ks st
    | some e ↦ elim e.recently_used [
      | true ↦ let r = sweep needed ks (clear_bit k e st) in (k ∷ r.0, r.1)
      | false ↦ sweep needed ks (evict k e st)
    ]
  ]
]

-- A pass of the outer loop.
unfoldable pub evict_pass : ℕ → Store → Store
unfolding sweep
evict_pass needed st = let r = sweep needed st.clock_order st in record (r.1) { clock_order = r.0 }

-- `CacheStoreFast::evict_to_fit`
unfoldable pub evict_to_fit : ℕ → Store → Store
unfolding evict_pass
evict_to_fit needed st =
    if st.max_l1_bytes == 0
    then st
    else (if leb (st.l1_bytes + needed) st.max_l1_bytes
        then st
        else evict_pass needed (evict_pass needed st))

-- `CacheStoreFast::l1_put_locked`
unfoldable pub l1_put_locked : Key → List ℕ → Store → Store
unfolding evict_to_fit
l1_put_locked key bin st =
    let room = evict_to_fit (length bin) st in
    record room {
      clock_order = room.clock_order ++ key ∷ [];
      clock_pos = assign key key room.clock_pos;
      l1 = assign key (record { data_bytes = bin; recently_used = true }) room.l1;
      l1_bytes = room.l1_bytes + length bin;
    }

-- `CacheStoreFast::get`
unfoldable pub get : Key → Store → Store × Option (List ℕ)
unfolding l1_put_locked
get key st = elim (lookup key st.l1) [
  | some e ↦ (
    record st {
      l1 = assign key (record e { recently_used = true }) st.l1;
      counters = record (st.counters) { l1_hits = u64 (st.counters.l1_hits + 1) };
    },
    some e.data_bytes,
  )
  | none ↦ elim (Cache.get key st.disk) [
    | none ↦ (
      record st { counters = record (st.counters) { misses = u64 (st.counters.misses + 1) } },
      none,
    )
    | some bin ↦
        let st' = l1_put_locked key bin st in
        (
          record st' {
            counters = record (st'.counters) { l2_hits = u64 (st'.counters.l2_hits + 1) };
          },
          some bin,
        )
  ]
]

-- `CacheStoreFast::put`
unfoldable pub put : Key → List ℕ → Store → Store
unfolding l1_put_locked
put key bin st =
    let st' = record st { disk = Cache.put key bin st.disk } in
    elim (lookup key st.l1) [
      | some e ↦ record st' {
        l1 = assign key (record { data_bytes = bin; recently_used = true }) st.l1;
        l1_bytes = (st.l1_bytes - length e.data_bytes) + length bin;
      }
      | none ↦ l1_put_locked key bin st'
    ]
