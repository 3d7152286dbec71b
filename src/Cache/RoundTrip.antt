-- ===== src/Cache/RoundTrip.antt =====
-- What `CacheStore::get` (src/cache.cpp) returns after `CacheStore::put`, and what it accepts.
use amp.Prelude.{
  ℕ, ◌+◌, ◌*◌, ◌/◌, ◌%◌, ◌^◌, ◌<◌, ◌≡◌, refl, ap, ◌∙◌, Bool, true, false, ◌&&◌, List, [], ◌∷◌, ◌++◌,
  Option, none, some, length, take, drop, length-take, ltb, ◌==◌, arith, inl, inr, Bool-cases,
  ==_iff, ◌≢◌,
}
use Prim.Native.Nat.{bit_xor}
use amp.Cache.Maps.{same→≡, lookup-assign_self, lookup-assign_ne}
use amp.Cache.{
  Key, same, assign, remove, Store, fnv1a32, fnv1a32_loop, le32, u32_at, magic, version, encode,
  decode, get, write_tmp, rename, put,
}

pub le32-round :
    (n : ℕ)
    → n < 2 ^ 32
    → n % 256 + 256 * (n / 256 % 256) + 65536 * (n / 65536 % 256) + 16777216 * (n / 16777216 % 256)
      ≡ n
le32-round n h = omega arith

fnv1a32_loop-IsU32 : (bs : List ℕ) (h : ℕ) → h < 2 ^ 32 → fnv1a32_loop h bs < 2 ^ 32
unfolding fnv1a32_loop
fnv1a32_loop-IsU32 [] h lt = lt
fnv1a32_loop-IsU32 (b ∷ bs) h lt =
    fnv1a32_loop-IsU32 bs ((bit_xor h b * 16777619) % 2 ^ 32) (omega arith)

fnv1a32-IsU32 : (bs : List ℕ) → fnv1a32 bs < 2 ^ 32
unfolding fnv1a32
fnv1a32-IsU32 bs = fnv1a32_loop-IsU32 bs 2166136261 (omega arith)

take-length : (bs : List ℕ) → take (length bs) bs ≡ bs
take-length [] = refl
take-length (b ∷ bs) = ap (λ xs. b ∷ xs) (take-length bs)

decode-header :
    (c0 c1 c2 c3 n0 n1 n2 n3 : ℕ) (bin : List ℕ)
    → c0 + 256 * c1 + 65536 * c2 + 16777216 * c3 ≡ fnv1a32 bin
    → n0 + 256 * n1 + 65536 * n2 + 16777216 * n3 ≡ length bin
    → decode (magic ++ le32 1 ++ (c0 ∷ c1 ∷ c2 ∷ c3 ∷ n0 ∷ n1 ∷ n2 ∷ n3 ∷ bin)) ≡ some bin
unfolding decode
decode-header c0 c1 c2 c3 n0 n1 n2 n3 bin crc len = ground (arith, take-length bin)

-- The header and the payload come back, where the length fits its four bytes.
pub decode-encode : (bin : List ℕ) → length bin < 2 ^ 32 → decode (encode bin) ≡ some bin
unfolding encode
decode-encode bin h =
    let small : length bin % 2 ^ 32 ≡ length bin = omega arith in
    decode-header _ _ _ _ _ _ _ _ bin (le32-round (fnv1a32 bin) (fnv1a32-IsU32 bin))
      (le32-round (length bin % 2 ^ 32) (omega arith) ∙ small)

put-unfold :
    (key : Key) (bin : List ℕ) (st : Store)
    → put key bin st ≡ record {
      bins = assign key (encode bin) st.bins;
      tmps = remove key (assign key (encode bin) st.tmps);
    }
unfolding put write_tmp rename
put-unfold key bin st = rw (lookup-assign_self key (encode bin) st.tmps, put, rename) refl

-- After a `put` its key gives the payload, and the other keys what they gave; the payload's length has to fit the four bytes of the header.
pub get-put :
    (key : Key) (bin : List ℕ) (st : Store)
    → length bin < 2 ^ 32
    → (get key (put key bin st) ≡ some bin)
      × ((other : Key) → other ≢ key → get other (put key bin st) ≡ get other st)
unfolding get
get-put key bin st h =
    let at_key = lookup-assign_self key (encode bin) st.bins in
    rw (put-unfold key bin st) (
      rw (at_key, get) (decode-encode bin h),
      λ other ne. rw (lookup-assign_ne key other (encode bin) st.bins ne, get) refl,
    )

both : (a b : Bool) → (a && b) ≡ true → (a ≡ true) × (b ≡ true)
both true true h = (refl, refl)
both true false h = grind arith
both false b h = grind arith

-- What a file holds that `get` accepts: the magic, the version, the length and the checksum.
abbrev pub Accepts : List ℕ → Option (List ℕ) → Type 0
Accepts file none = Unit
Accepts file (some bin) =
    (take 4 file ≡ magic)
    × (u32_at file 4 ≡ version)
    × (length bin ≡ u32_at file 12)
    × (fnv1a32 bin ≡ u32_at file 8)
    × (bin ≡ take (u32_at file 12) (drop 16 file))

-- Whatever is on the disk, a payload that comes out of a file has the magic, the version, the
-- length and the checksum of the file's header: a file where one of them is wrong gives none.
decode-Accepts : (file : List ℕ) → Accepts file (decode file)
unfolding decode
decode-Accepts file =
    let payload_len = u32_at file 12 in
    let rest = drop 16 file in
    let bin = take payload_len rest in
    elim (Bool-cases (ltb (length file) 16)) [
      | inl short ↦ rw (short, decode) tt
      | inr e1 ↦ elim (Bool-cases (same (take 4 file) magic && (u32_at file 4 == version))) [
        | inr bad ↦ rw (e1, bad, decode) tt
        | inl good ↦ elim (Bool-cases (ltb (length rest) payload_len)) [
          | inl cut ↦ rw (e1, good, cut, decode) tt
          | inr whole ↦ elim (Bool-cases (fnv1a32 bin == u32_at file 8)) [
            | inr bad ↦ rw (e1, good, whole, bad, decode) tt
            | inl sum ↦
                rw (e1, good, whole, sum, decode)
                  (
                    same→≡ _ _ (both _ _ good).0,
                    (==_iff _ _).0 (both _ _ good).1,
                    ground (arith, length-take payload_len rest),
                    (==_iff _ _).0 sum,
                    refl,
                  )
          ]
        ]
      ]
    ]
