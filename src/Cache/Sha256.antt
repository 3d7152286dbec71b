-- ===== src/Cache/Sha256.antt =====
-- `struct SHA256` and `CacheStore::fingerprint` (src/cache.cpp). A `uint32_t` is a number below 2^32 and
-- a string the list of its bytes. `buf` holds its first `buf_len` bytes, the ones that are read.
use amp.Prelude.{
  ℕ, zero, suc, ◌+◌, ◌-◌, ◌*◌, ◌/◌, ◌%◌, ◌^◌, List, [], ◌∷◌, ◌++◌, if◌then◌else◌, length, get_or,
  take, drop, min, ltb, ◌==◌, true, false,
}
use Prim.Native.Nat.{bit_and, bit_or, bit_xor}
use amp.Cache.{Key}

abbrev u32 : ℕ → ℕ
u32 n = n % 2 ^ 32

-- `SHA256::rot`
abbrev pub rot : ℕ → ℕ → ℕ
rot x n = bit_or (x / 2 ^ n) (u32 (x * 2 ^ (32 - n)))

-- The eight words of `h`, and the working variables of `block`.
pub record Words : Type 0 where
  pub a : ℕ
  pub b : ℕ
  pub c : ℕ
  pub d : ℕ
  pub e : ℕ
  pub f : ℕ
  pub g : ℕ
  pub hh : ℕ

-- `struct SHA256`
pub record Sha256 : Type 0 where
  pub h : Words
  pub bit_len : ℕ
  pub buf : List ℕ

abbrev pub fresh : Sha256
fresh = record {
  h = record {
    a = 0x6a09e667;
    b = 0xbb67ae85;
    c = 0x3c6ef372;
    d = 0xa54ff53a;
    e = 0x510e527f;
    f = 0x9b05688c;
    g = 0x1f83d9ab;
    hh = 0x5be0cd19;
  };
  bit_len = 0;
  buf = [];
}

-- `K` of `SHA256::block`
abbrev pub round_constants : List ℕ
round_constants =
    0x428a2f98 ∷ 0x71374491 ∷ 0xb5c0fbcf ∷ 0xe9b5dba5 ∷ 0x3956c25b ∷ 0x59f111f1 ∷ 0x923f82a4
    ∷ 0xab1c5ed5 ∷ 0xd807aa98 ∷ 0x12835b01 ∷ 0x243185be ∷ 0x550c7dc3 ∷ 0x72be5d74 ∷ 0x80deb1fe
    ∷ 0x9bdc06a7 ∷ 0xc19bf174 ∷ 0xe49b69c1 ∷ 0xefbe4786 ∷ 0x0fc19dc6 ∷ 0x240ca1cc ∷ 0x2de92c6f
    ∷ 0x4a7484aa ∷ 0x5cb0a9dc ∷ 0x76f988da ∷ 0x983e5152 ∷ 0xa831c66d ∷ 0xb00327c8 ∷ 0xbf597fc7
    ∷ 0xc6e00bf3 ∷ 0xd5a79147 ∷ 0x06ca6351 ∷ 0x14292967 ∷ 0x27b70a85 ∷ 0x2e1b2138 ∷ 0x4d2c6dfc
    ∷ 0x53380d13 ∷ 0x650a7354 ∷ 0x766a0abb ∷ 0x81c2c92e ∷ 0x92722c85 ∷ 0xa2bfe8a1 ∷ 0xa81a664b
    ∷ 0xc24b8b70 ∷ 0xc76c51a3 ∷ 0xd192e819 ∷ 0xd6990624 ∷ 0xf40e3585 ∷ 0x106aa070 ∷ 0x19a4c116
    ∷ 0x1e376c08 ∷ 0x2748774c ∷ 0x34b0bcb5 ∷ 0x391c0cb3 ∷ 0x4ed8aa4a ∷ 0x5b9cca4f ∷ 0x682e6ff3
    ∷ 0x748f82ee ∷ 0x78a5636f ∷ 0x84c87814 ∷ 0x8cc70208 ∷ 0x90befffa ∷ 0xa4506ceb ∷ 0xbef9a3f7
    ∷ 0xc67178f2 ∷ []

-- The first loop of `block`, with `n` words to go.
unfoldable pub load_words : List ℕ → ℕ → ℕ → List ℕ
load_words p zero i = []
load_words p (suc n) i =
    bit_or
      (bit_or (bit_or (get_or p (i * 4) 0 * 2 ^ 24) (get_or p (i * 4 + 1) 0 * 2 ^ 16))
        (get_or p (i * 4 + 2) 0 * 2 ^ 8))
      (get_or p (i * 4 + 3) 0)
    ∷ load_words p n (i + 1)

-- The second loop, at word `i`.
unfoldable pub extend_words : ℕ → ℕ → List ℕ → List ℕ
extend_words zero i w = w
extend_words (suc n) i w =
    let x = get_or w (i - 15) 0 in
    let y = get_or w (i - 2) 0 in
    let s0 = bit_xor (bit_xor (rot x 7) (rot x 18)) (x / 2 ^ 3) in
    let s1 = bit_xor (bit_xor (rot y 17) (rot y 19)) (y / 2 ^ 10) in
    extend_words n (i + 1) (w ++ u32 (get_or w (i - 16) 0 + s0 + get_or w (i - 7) 0 + s1) ∷ [])

-- The body of the third loop.
unfoldable pub round : ℕ → ℕ → Words → Words
round k w r =
    let s1 = bit_xor (bit_xor (rot r.e 6) (rot r.e 11)) (rot r.e 25) in
    let ch = bit_xor (bit_and r.e r.f) (bit_and (2 ^ 32 - 1 - r.e) r.g) in
    let t1 = u32 (r.hh + s1 + ch + k + w) in
    let s0 = bit_xor (bit_xor (rot r.a 2) (rot r.a 13)) (rot r.a 22) in
    let mj = bit_xor (bit_xor (bit_and r.a r.b) (bit_and r.a r.c)) (bit_and r.b r.c) in
    let t2 = u32 (s0 + mj) in
    record {
      a = u32 (t1 + t2);
      b = r.a;
      c = r.b;
      d = r.c;
      e = u32 (r.d + t1);
      f = r.e;
      g = r.f;
      hh = r.g;
    }

unfoldable pub rounds : List ℕ → List ℕ → Words → Words
unfolding round
rounds [] ws r = r
rounds (k ∷ ks) [] r = r
rounds (k ∷ ks) (w ∷ ws) r = rounds ks ws (round k w r)

-- `SHA256::block`
unfoldable pub block : List ℕ → Words → Words
unfolding load_words extend_words rounds
block p h =
    let r = rounds round_constants (extend_words 48 16 (load_words p 16 0)) h in
    record {
      a = u32 (h.a + r.a);
      b = u32 (h.b + r.b);
      c = u32 (h.c + r.c);
      d = u32 (h.d + r.d);
      e = u32 (h.e + r.e);
      f = u32 (h.f + r.f);
      g = u32 (h.g + r.g);
      hh = u32 (h.hh + r.hh);
    }

-- The loop of `update`; a turn takes a byte at least, so that as many turns as bytes are enough.
unfoldable pub update_loop : ℕ → List ℕ → Sha256 → Sha256
unfolding block
update_loop zero d s = s
update_loop (suc fuel) [] s = s
update_loop (suc fuel) (x ∷ xs) s =
    let k = min (64 - length s.buf) (length (x ∷ xs)) in
    let buf = s.buf ++ take k (x ∷ xs) in
    update_loop fuel (drop k (x ∷ xs)) (
      if length buf == 64 then record s { h = block buf s.h; buf = [] } else record s { buf = buf })

-- `SHA256::update`
unfoldable pub update : List ℕ → Sha256 → Sha256
unfolding update_loop
update d s = update_loop (length d) d (record s { bit_len = (s.bit_len + length d * 8) % 2 ^ 64 })

-- `while (buf_len != 56)`: a turn adds a byte to a buffer of 64, so that 64 turns are enough.
unfoldable pub pad_loop : ℕ → Sha256 → Sha256
unfolding update
pad_loop zero s = s
pad_loop (suc fuel) s = elim (length s.buf == 56) [
  | true ↦ s
  | false ↦ pad_loop fuel (update (0 ∷ []) s)
]

-- The eight bytes of `lb`.
abbrev pub length_bytes : ℕ → List ℕ
length_bytes n =
    n / 2 ^ 56 % 256
    ∷ n / 2 ^ 48 % 256
    ∷ n / 2 ^ 40 % 256
    ∷ n / 2 ^ 32 % 256
    ∷ n / 2 ^ 24 % 256
    ∷ n / 2 ^ 16 % 256
    ∷ n / 2 ^ 8 % 256
    ∷ n % 256
    ∷ []

-- The last `n` hexadecimal digits, as a stream prints them with `setw(8)` and `setfill('0')`.
abbrev pub hex_digit : ℕ → ℕ
hex_digit x = if ltb x 10 then 48 + x else 87 + x

abbrev pub hex : ℕ → ℕ → List ℕ
hex zero x = []
hex (suc n) x = hex_digit (x / 16 ^ n % 16) ∷ hex n x

-- `SHA256::hexdigest`
unfoldable pub hexdigest : Sha256 → List ℕ
unfolding update pad_loop
hexdigest s =
    let padded = pad_loop 64 (update (0x80 ∷ []) s) in
    let h = (update (length_bytes s.bit_len) padded).h in
    hex 8 h.a
    ++ hex 8 h.b
    ++ hex 8 h.c
    ++ hex 8 h.d
    ++ hex 8 h.e
    ++ hex 8 h.f
    ++ hex 8 h.g
    ++ hex 8 h.hh

-- `struct CompileGraph`
pub record CompileGraph : Type 0 where
  pub op : List ℕ
  pub shape : List ℕ
  pub dtype : List ℕ
  pub arch : List ℕ
  pub tune_cfg : List ℕ
  pub runtime_ver : List ℕ

-- The text that `fingerprint` puts together; `show` is the stream's print of an `int`.
abbrev pub dims : (ℕ → List ℕ) → List ℕ → List ℕ
dims show [] = []
dims show (d ∷ ds) = show d ++ 44 ∷ dims show ds

abbrev pub key_text : (ℕ → List ℕ) → CompileGraph → List ℕ
key_text show g =
    g.op
    ++ 124
      ∷ (g.dtype
          ++ 124
            ∷ (g.arch ++ 124 ∷ (g.tune_cfg ++ 124 ∷ (g.runtime_ver ++ 124 ∷ dims show g.shape))))

-- `CacheStore::fingerprint`
unfoldable pub fingerprint : (ℕ → List ℕ) → CompileGraph → Key
unfolding update hexdigest
fingerprint show g = take 16 (hexdigest (update (key_text show g) fresh))
