-- ===== src/CacheFast/Refinement.antt =====
-- The table in memory (src/cache_fast.cpp) in front of the disk store changes no answer.
use amp.Prelude.{
  ℕ, ◌+◌, ◌<◌, ◌^◌, ◌≡◌, ◌≢◌, refl, sym, ap, subst, ◌∙◌, true, false, List, [], ◌∷◌, Option, none,
  some, length, leb, ◌==◌, arith, inl, inr, Bool-cases, Option-cases,
}
use amp.Cache
use amp.Cache.{Key, same, lookup, assign, remove}
use amp.Cache.Maps.{same→≡, same_self, lookup-assign_self, lookup-assign_ne, lookup-remove}
use amp.Cache.RoundTrip.{get-put}
use amp.CacheFast.{
  Entry, Store, clear_bit, evict, sweep, evict_pass, evict_to_fit, l1_put_locked, get, put,
}

-- What the table in memory holds is what the disk store gives.
abbrev pub Coherent : Cache.Store → List (Key × Entry) → Type 0
Coherent disk l1 =
    (k : Key) (e : Entry) → lookup k l1 ≡ some e → Cache.get k disk ≡ some e.data_bytes

abbrev bytes_of : Option Entry → Option (List ℕ)
bytes_of none = none
bytes_of (some e) = some e.data_bytes

module _ (disk : Cache.Store) where
  assign-Coherent :
      (k : Key) (e : Entry) (l1 : List (Key × Entry))
      → Cache.get k disk ≡ some e.data_bytes
      → Coherent disk l1
      → Coherent disk (assign k e l1)
  assign-Coherent k e l1 here h l d found = elim (Bool-cases (same l k)) [
    | inl eq ↦
        let l_is : l ≡ k = same→≡ l k eq in
        let both : some d ≡ some e =
          sym found ∙ ap (λ j. lookup j (assign k e l1)) l_is ∙ lookup-assign_self k e l1 in
        ap (λ j. Cache.get j disk) l_is ∙ here ∙ sym (ap bytes_of both)
    | inr ne ↦
        let other : l ≢ k = λ l_is. absurd (ground (arith, same_self k)) in
        h l d (sym (lookup-assign_ne k l e l1 other) ∙ found)
  ]

  remove-Coherent :
      (k : Key) (l1 : List (Key × Entry)) → Coherent disk l1 → Coherent disk (remove k l1)
  remove-Coherent k l1 h l d found = elim (Bool-cases (same l k)) [
    | inl eq ↦
        let gone : lookup l (remove k l1) ≡ none = lookup-remove k l l1 ∙ rw eq refl in
        absurd (grind (arith, sym gone ∙ found))
    | inr ne ↦
        let kept : lookup l (remove k l1) ≡ lookup l l1 = lookup-remove k l l1 ∙ rw ne refl in
        h l d (sym kept ∙ found)
  ]

  sweep-Coherent :
      (needed : ℕ) (ks : List Key) (st : Store)
      → Coherent disk st.l1
      → Coherent disk (sweep needed ks st).1.l1 × ((sweep needed ks st).1.disk ≡ st.disk)
  unfolding sweep clear_bit evict
  sweep-Coherent needed [] st h = (h, refl)
  sweep-Coherent needed (k ∷ ks) st h =
      elim (Bool-cases (leb (st.l1_bytes + needed) st.max_l1_bytes)) [
        | inl fits ↦ rw (fits, sweep) (h, refl)
        | inr more ↦ elim (Option-cases (lookup k st.l1)) [
          | inl gone ↦ rw (more, gone, sweep) (sweep-Coherent needed ks st h)
          | inr (e, here) ↦ elim (Bool-cases e.recently_used) [
            | inl used ↦
                rw (more, here, used, sweep)
                  (sweep-Coherent needed ks (clear_bit k e st)
                    (assign-Coherent k (record e { recently_used = false }) st.l1 (h k e here) h))
            | inr clear ↦
                rw (more, here, clear, sweep)
                  (sweep-Coherent needed ks (evict k e st) (remove-Coherent k st.l1 h))
          ]
        ]
      ]

  evict_to_fit-Coherent :
      (needed : ℕ) (st : Store)
      → Coherent disk st.l1
      → Coherent disk (evict_to_fit needed st).l1 × ((evict_to_fit needed st).disk ≡ st.disk)
  unfolding evict_to_fit evict_pass
  evict_to_fit-Coherent needed st h = elim (Bool-cases (st.max_l1_bytes == 0)) [
    | inl unlimited ↦ rw (unlimited, evict_to_fit) (h, refl)
    | inr limited ↦ elim (Bool-cases (leb (st.l1_bytes + needed) st.max_l1_bytes)) [
      | inl fits ↦ rw (limited, fits, evict_to_fit) (h, refl)
      | inr more ↦
          let one = sweep-Coherent needed st.clock_order st h in
          let st1 = evict_pass needed st in
          let two = sweep-Coherent needed st1.clock_order st1 one.0 in
          rw (limited, more, evict_to_fit) (two.0, two.1 ∙ one.1)
    ]
  ]

  l1_put_locked-Coherent :
      (key : Key) (bin : List ℕ) (st : Store)
      → Cache.get key disk ≡ some bin
      → Coherent disk st.l1
      → Coherent disk (l1_put_locked key bin st).l1 × ((l1_put_locked key bin st).disk ≡ st.disk)
  unfolding l1_put_locked
  l1_put_locked-Coherent key bin st here h =
      let room = evict_to_fit-Coherent (length bin) st h in
      (
        assign-Coherent key (record { data_bytes = bin; recently_used = true })
            (evict_to_fit (length bin) st).l1 here room.0,
        room.1,
      )

-- `get` answers what the disk store answers, whatever the table in memory holds and evicts, as long
-- as the table agrees with the disk; and it keeps that agreement and the disk.
pub get-IsTransparent :
    (key : Key) (st : Store)
    → Coherent st.disk st.l1
    → let r = get key st in
      (r.1 ≡ Cache.get key st.disk) × Coherent st.disk r.0.l1 × (r.0.disk ≡ st.disk)
unfolding get
get-IsTransparent key st h = elim (Option-cases (lookup key st.l1)) [
  | inr (e, here) ↦
      rw (here, get)
        (
          sym (h key e here),
          assign-Coherent st.disk key (record e { recently_used = true }) st.l1 (h key e here) h,
          refl,
        )
  | inl absent ↦ elim (Option-cases (Cache.get key st.disk)) [
    | inl miss ↦ rw (absent, miss, get) (refl, h, refl)
    | inr (bin, found) ↦
        let p = l1_put_locked-Coherent st.disk key bin st found h in
        rw (absent, found, get) (refl, p.0, p.1)
  ]
]

module _ (key : Key) (bin : List ℕ) (st : Store) where
  -- An entry of another key still agrees with the disk after the write.
  others-Coherent :
      length bin < 2 ^ 32
      → Coherent st.disk st.l1
      → (k : Key) (e : Entry) → k ≢ key
      → lookup k st.l1 ≡ some e
      → Cache.get k (Cache.put key bin st.disk) ≡ some e.data_bytes
  others-Coherent fits h k e ne found = (get-put key bin st.disk fits).1 k ne ∙ h k e found

  overwritten :
      length bin < 2 ^ 32
      → Coherent st.disk st.l1
      → (v : Entry) → Cache.get key (Cache.put key bin st.disk) ≡ some v.data_bytes
      → Coherent (Cache.put key bin st.disk) (assign key v st.l1)
  overwritten fits h v here k e found = elim (Bool-cases (same k key)) [
    | inl eq ↦
        let k_is : k ≡ key = same→≡ k key eq in
        let both : some e ≡ some v =
          sym found
          ∙ ap (λ j. lookup j (assign key v st.l1)) k_is
          ∙ lookup-assign_self key v st.l1 in
        ap (λ j. Cache.get j (Cache.put key bin st.disk)) k_is ∙ here ∙ sym (ap bytes_of both)
    | inr ne ↦
        let other : k ≢ key = λ k_is. absurd (ground (arith, same_self key)) in
        others-Coherent fits h k e other (sym (lookup-assign_ne key k v st.l1 other) ∙ found)
  ]

  put-Coherent :
      length bin < 2 ^ 32
      → Coherent st.disk st.l1
      → Coherent (put key bin st).disk (put key bin st).l1
        × ((put key bin st).disk ≡ Cache.put key bin st.disk)
  unfolding put
  put-Coherent fits h =
      let disk = Cache.put key bin st.disk in
      let here : Cache.get key disk ≡ some bin = (get-put key bin st.disk fits).0 in
      elim (Option-cases (lookup key st.l1)) [
        | inr (e, old) ↦
            let v : Entry = record { data_bytes = bin; recently_used = true } in
            rw (old, put) (overwritten fits h v here, refl)
        | inl absent ↦
            let start : Coherent disk st.l1 = λ k e found.
              others-Coherent fits h k e
                (λ k_is.
                  absurd (grind (arith, sym absent ∙ ap (λ j. lookup j st.l1) (sym k_is) ∙ found)))
                found in
            let st1 = record st { disk = disk } in
            let p = l1_put_locked-Coherent disk key bin st1 here start in
            rw (absent, put)
              (subst (λ d. Coherent d (l1_put_locked key bin st1).l1) (sym p.1) p.0, p.1)
      ]

-- After a `put` the table in memory agrees with the new disk, and `get` gives the payload of its
-- key and for another key what the disk gave; the payload's length has to fit the header.
pub put-IsTransparent :
    (key : Key) (bin : List ℕ) (st : Store)
    → length bin < 2 ^ 32
    → Coherent st.disk st.l1
    → let st' = put key bin st in
      Coherent st'.disk st'.l1
      × ((get key st').1 ≡ some bin)
      × ((other : Key) → other ≢ key → (get other st').1 ≡ Cache.get other st.disk)
put-IsTransparent key bin st fits h =
    let (coherent, same_disk) = put-Coherent key bin st fits h in
    let st' = put key bin st in
    let disk = get-put key bin st.disk fits in
    (
      coherent,
      (get-IsTransparent key st' coherent).0 ∙ ap (Cache.get key) same_disk ∙ disk.0,
      λ other ne.
          (get-IsTransparent other st' coherent).0
          ∙ ap (Cache.get other) same_disk
          ∙ disk.1 other ne,
    )
