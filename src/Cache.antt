-- ===== src/Cache.antt =====
-- include/cache.hpp and src/cache.cpp: the disk store of compiled binaries. The directory is the
-- contents of its files by key, `.bin` and `.tmp` apart; a byte is a number below 256. A write of
-- the file system that fails is not modelled.
pub mod Maps
pub mod RoundTrip
pub mod Sha256
pub mod Fingerprint
use amp.Prelude.{
  ℕ, zero, suc, ◌+◌, ◌*◌, ◌/◌, ◌%◌, ◌^◌, ◌≡◌, Bool, true, false, not, ◌&&◌, List, [], ◌∷◌, ◌++◌,
  Option, none, some, if◌then◌else◌, length, get_or, take, drop, ltb, ◌==◌,
}
use Prim.Native.Nat.{bit_xor}

abbrev pub Key : Type 0
Key = List ℕ

-- `operator==` of strings.
abbrev pub same : Key → Key → Bool
same [] [] = true
same [] (y ∷ ys) = false
same (x ∷ xs) [] = false
same (x ∷ xs) (y ∷ ys) = let rest = same xs ys in if x == y then rest else false

-- A map from keys, which holds each key once: a write replaces an entry where it stands.
abbrev pub lookup {ℓ} : {A : Type ℓ} → Key → List (Key × A) → Option A
lookup k [] = none
lookup k ((j, a) ∷ m) = let rest = lookup k m in if same j k then some a else rest

abbrev pub assign {ℓ} : {A : Type ℓ} → Key → A → List (Key × A) → List (Key × A)
assign k a [] = (k, a) ∷ []
assign k a ((j, b) ∷ m) = let rest = assign k a m in if same j k then (j, a) ∷ m else (j, b) ∷ rest

abbrev pub remove {ℓ} : {A : Type ℓ} → Key → List (Key × A) → List (Key × A)
remove k [] = []
remove k ((j, b) ∷ m) = let rest = remove k m in if same j k then rest else (j, b) ∷ rest

-- `class CacheStore`: its directory.
pub record Store : Type 0 where
  pub bins : List (Key × List ℕ)
  pub tmps : List (Key × List ℕ)

-- `fnv1a32`
unfoldable pub fnv1a32_loop : ℕ → List ℕ → ℕ
fnv1a32_loop h [] = h
fnv1a32_loop h (b ∷ bs) = fnv1a32_loop ((bit_xor h b * 16777619) % 2 ^ 32) bs

unfoldable pub fnv1a32 : List ℕ → ℕ
unfolding fnv1a32_loop
fnv1a32 bs = fnv1a32_loop 2166136261 bs

-- A `uint32_t` as the four bytes that a little-endian machine writes.
abbrev pub le32 : ℕ → List ℕ
le32 n = n % 256 ∷ n / 256 % 256 ∷ n / 65536 % 256 ∷ n / 16777216 % 256 ∷ []

abbrev pub u32_at : List ℕ → ℕ → ℕ
u32_at file i =
    get_or file i 0
    + 256 * get_or file (i + 1) 0
    + 65536 * get_or file (i + 2) 0
    + 16777216 * get_or file (i + 3) 0

-- `kMagic` and `kVersion`
abbrev pub magic : List ℕ
magic = 0x55 ∷ 0x58 ∷ 0x4c ∷ 0x43 ∷ []

abbrev pub version : ℕ
version = 1

-- The file that `put` writes: `BinHeader` and the payload.
unfoldable pub encode : List ℕ → List ℕ
encode bin = magic ++ le32 version ++ le32 (fnv1a32 bin) ++ le32 (length bin % 2 ^ 32) ++ bin

-- What `get` makes of a file.
unfoldable pub decode : List ℕ → Option (List ℕ)
decode file =
    let payload_crc = u32_at file 8 in
    let payload_len = u32_at file 12 in
    let rest = drop 16 file in
    let bin = take payload_len rest in
    if ltb (length file) 16
    then none
    else (if not (same (take 4 file) magic && (u32_at file 4 == version))
        then none
        else (if ltb (length rest) payload_len
            then none
            else (if not (fnv1a32 bin == payload_crc) then none else some bin)))

-- `CacheStore::get`
unfoldable pub get : Key → Store → Option (List ℕ)
unfolding decode
get key st = elim (lookup key st.bins) [ none ↦ none | some file ↦ decode file ]

-- The two steps of `CacheStore::put`: the temporary file, and the rename over the entry.
unfoldable pub write_tmp : Key → List ℕ → Store → Store
unfolding encode
write_tmp key bin st = record st { tmps = assign key (encode bin) st.tmps }

unfoldable pub rename : Key → Store → Store
rename key st = elim (lookup key st.tmps) [
  | none ↦ st
  | some file ↦ record st { bins = assign key file st.bins; tmps = remove key st.tmps }
]

-- `CacheStore::put`
unfoldable pub put : Key → List ℕ → Store → Store
unfolding write_tmp rename
put key bin st = rename key (write_tmp key bin st)

-- `CacheStore::size`
unfoldable pub size : Store → ℕ
size st = length st.bins
