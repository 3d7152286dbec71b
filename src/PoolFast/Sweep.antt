-- ===== src/PoolFast/Sweep.antt =====
-- `PagePoolFast::leak_scan`, `touch` and `stats` (src/pool_fast.cpp).
use amp.Prelude.{
  ℕ, zero, suc, ◌+◌, ◌-◌, ◌*◌, ◌^◌, ◌<◌, ◌≡◌, refl, true, false, List, [], ◌∷◌, ltb, leb,
  if◌then◌else◌, length, get_or, set, total, bit, count, ◌==◌, arith, get_or-set, length-set, inl,
  inr, Bool-cases, has, get_or_of_le,
}
use amp.PoolFast.{PageMeta, blank_meta, Pool, meta_at, u64, is_stale, orphans, leak_scan, touch}
use amp.PoolFast.Stacks.{Linked}
use amp.PoolFast.Pages.{Inv, is_used, free_pages_in_use}

orphans_below :
    (ttl_ms now k j : ℕ) (ms : List PageMeta) → j < k → count j (orphans ttl_ms now k ms) ≡ 0
unfolding orphans
orphans_below ttl_ms now k j [] h = refl
orphans_below ttl_ms now k j (m ∷ ms) h = elim (Bool-cases (is_stale ttl_ms now m)) [
  | inl old ↦ rw (old, orphans) (ground (arith, orphans_below ttl_ms now (k + 1) j ms))
  | inr new ↦ rw (new, orphans) (orphans_below ttl_ms now (k + 1) j ms (omega arith))
]

-- 1 if there is a page `i` and the test of `leak_scan` holds of it.
abbrev pub stale_at : ℕ → ℕ → List PageMeta → ℕ → ℕ
stale_at ttl_ms now ms i =
    if ltb i (length ms) then bit (is_stale ttl_ms now (get_or ms i blank_meta)) else 0

orphans_at :
    (ttl_ms now k i j : ℕ) (ms : List PageMeta)
    → j ≡ k + i
    → count j (orphans ttl_ms now k ms) ≡ stale_at ttl_ms now ms i
unfolding orphans
orphans_at ttl_ms now k i j [] e = ground arith
orphans_at ttl_ms now k zero j (m ∷ ms) e = elim (Bool-cases (is_stale ttl_ms now m)) [
  | inl old ↦ rw (old, orphans) (ground (arith, orphans_below ttl_ms now (k + 1) j ms))
  | inr new ↦ rw (new, orphans) (ground (arith, orphans_below ttl_ms now (k + 1) j ms))
]
orphans_at ttl_ms now k (suc i) j (m ∷ ms) e = elim (Bool-cases (is_stale ttl_ms now m)) [
  | inl old ↦ rw (old, orphans) (ground (arith, orphans_at ttl_ms now (k + 1) i j ms))
  | inr new ↦ rw (new, orphans) (ground (arith, orphans_at ttl_ms now (k + 1) i j ms))
]

length-orphans :
    (ttl_ms now k : ℕ) (ms : List PageMeta)
    → length (orphans ttl_ms now k ms) ≡ total (λ m. bit (is_stale ttl_ms now m)) ms
unfolding orphans
length-orphans ttl_ms now k [] = refl
length-orphans ttl_ms now k (m ∷ ms) = elim (Bool-cases (is_stale ttl_ms now m)) [
  | inl old ↦ rw (old, orphans) (omega (arith, length-orphans ttl_ms now (k + 1) ms))
  | inr new ↦ rw (new, orphans) (omega (arith, length-orphans ttl_ms now (k + 1) ms))
]

-- `leak_scan` frees exactly the pages that its test finds stale, each once, and returns their
-- number; the stacks stay those of the free pages.
pub leak_scan_wrapping :
    (ttl_ms now : ℕ) (p : Pool)
    → Inv p
    → let r = leak_scan ttl_ms now p in
      Inv r.0
      × (r.1 ≡ total (λ m. bit (is_stale ttl_ms now m)) p.meta)
      × ((i : ℕ)
          → meta_at r.0 i ≡ (
              if is_stale ttl_ms now (meta_at p i)
              then record (meta_at p i) { touch_us = 0 }
              else meta_at p i))
      × (r.0.free_cnt ≡ u64 (p.free_cnt + r.1))
unfolding leak_scan
leak_scan_wrapping ttl_ms now p v =
    let ids = orphans ttl_ms now 0 p.meta in
    let once = λ (i : ℕ). orphans_at ttl_ms now 0 i i p.meta (omega arith) in
    let (inv, cleared, _, freed, _) = free_pages_in_use ids p (λ i. ground (arith, once i)) v in
    (
      inv,
      length-orphans ttl_ms now 0 p.meta,
      λ i. ground (arith, cleared i, once i, get_or_of_le p.meta i blank_meta),
      freed,
    )

-- The age test under the clock: a page touched up to `now` is stale when its age exceeds the limit,
-- and one touched after `now` was read is stale too, since the difference wraps.
is_stale_lem :
    (ttl_ms now : ℕ) (m : PageMeta)
    → now < 2 ^ 63
    → m.touch_us < 2 ^ 63
    → ttl_ms < 2 ^ 31
    → is_stale ttl_ms now m ≡ (
        if m.touch_us == 0
        then false
        else (if leb m.touch_us now then ltb (ttl_ms * 1000) (now - m.touch_us) else true))
is_stale_lem ttl_ms now m a b c = ground arith

-- A page in use is stamped anew.
stamp-Linked :
    (stacks : ℕ → List ℕ) (p : Pool) (id ts : ℕ)
    → 0 < ts
    → 0 < is_used p.meta id
    → Linked stacks p
    → Linked stacks (record p { meta = set p.meta id (record (meta_at p id) { touch_us = ts }) })
stamp-Linked stacks p id ts pos used v = record {
  chained = v.chained;
  exact = λ s i.
      ground (arith, v.exact s i, length-set p.meta id m, get_or-set p.meta id i m blank_meta);
  links = omega (arith, v.links, length-set p.meta id m);
  shards = v.shards;
  owned = λ i hi.
      ground
        (arith, v.owned i, v.owned id, length-set p.meta id m, get_or-set p.meta id i m blank_meta);
}
  where
    m : PageMeta
    m = record (meta_at p id) { touch_us = ts }

-- `touch` of pages in use, at a time after 0, leaves the stacks those of the free pages.
pub touch-Inv :
    (ids : List ℕ) (ts : ℕ) (p : Pool)
    → 0 < ts
    → ((i : ℕ) → has i ids ≡ true → 0 < is_used p.meta i)
    → Inv p
    → Inv (touch ids ts p)
unfolding touch
touch-Inv [] ts p pos h v = v
touch-Inv (id ∷ ids) ts p pos h (stacks, v) =
    let m : PageMeta = record (meta_at p id) { touch_us = ts } in
    touch-Inv ids ts _ pos
      (λ i hi.
        ground (arith, h i, h id, length-set p.meta id m, get_or-set p.meta id i m blank_meta))
      (stacks, stamp-Linked stacks p id ts pos (ground (arith, h id)) v)
