-- ===== src/Flash.antt =====
-- kernels/flash_attn.cu: attention with an online softmax, one warp for each row of the queries. The
-- device and its order of threads are those of Matmul. The lanes of a warp run in lockstep, so that
-- the row's part of the code is run once. A thread that has returned, or has left the loop, loads
-- nothing any more.
pub mod Exact
pub mod Softmax
pub mod Loads
pub mod Blocks
pub mod Partial
pub mod Dispatch
pub mod Launch
pub mod Output
pub mod Attention
use amp.Prelude.{
  ℕ, zero, suc, ◌+◌, ◌-◌, ◌*◌, ◌/◌, ◌%◌, ◌<◌, ◌≡◌, Bool, true, false, List, [], ◌∷◌, Option, none,
  some, if◌then◌else◌, ltb, leb, ◌==◌, ◌&&◌, ◌||◌, min,
}
use amp.Matmul.{Gpu, load_tile, sum_loop}

-- What the kernel uses of `float` besides sums and products: `neg_big` is -1e30f and `tiny` 1e-30f;
-- and the type of the tensors with its casts.
pub record FlashOps (gpu : Gpu) : Type 1 where
  pub f_one : gpu.Float
  pub neg_big : gpu.Float
  pub tiny : gpu.Float
  pub lt : gpu.Float → gpu.Float → Bool
  pub sub : gpu.Float → gpu.Float → gpu.Float
  pub div : gpu.Float → gpu.Float → gpu.Float
  pub fmax : gpu.Float → gpu.Float → gpu.Float
  pub exp : gpu.Float → gpu.Float
  pub log : gpu.Float → gpu.Float
  pub sqrt : gpu.Float → gpu.Float
  pub of_int : ℕ → gpu.Float
  pub Bf16 : Type 0
  pub to_float : Bf16 → gpu.Float
  pub to_bf16 : gpu.Float → Bf16

-- The members of a list that pass a test.
abbrev pub keep_if : (ℕ → Bool) → List ℕ → List ℕ
keep_if test [] = []
keep_if test (t ∷ ts) = let rest = keep_if test ts in if test t then t ∷ rest else rest

module _ (gpu : Gpu) (ops : FlashOps gpu) where
  open gpu use {Float, f_zero, add, mul, loaders, garbage}
  open ops use {f_one, neg_big, tiny, lt, sub, div, fmax, exp, log, Bf16, to_float, to_bf16}

  -- `m_i`, `l_i` and `o_i` of a row.
  pub record Row : Type 0 where
    pub m : Float
    pub l : Float
    pub o : ℕ → Float

  abbrev pub start_row : Row
  start_row = record { m = neg_big; l = f_zero; o = λ d. f_zero }

  -- `for (j = from; n turns; ++j) m = fmaxf(m, f(j))`
  unfoldable pub max_loop : (ℕ → Float) → ℕ → ℕ → Float → Float
  max_loop f zero j m = m
  max_loop f (suc n) j m = max_loop f n (j + 1) (fmax m (f j))

  -- A tile of `bc` scores and values, into the running maximum, sum and output.
  unfoldable pub row_step : ℕ → (ℕ → Float) → (ℕ → ℕ → Float) → Row → Row
  unfolding max_loop sum_loop
  row_step bc ss sv r =
      let m_new = fmax r.m (max_loop ss bc 0 neg_big) in
      let alpha = exp (sub r.m m_new) in
      let p = λ (j : ℕ). exp (sub (ss j) m_new) in
      let l_new = add (mul alpha r.l) (sum_loop gpu p bc 0 f_zero) in
      let sc_old = if lt f_zero l_new then div (mul r.l alpha) l_new else f_zero in
      let sc_new = if lt f_zero l_new then div f_one l_new else f_zero in
      record {
        m = m_new;
        l = l_new;
        o = λ d.
            add (mul sc_old (r.o d))
              (mul sc_new (sum_loop gpu (λ j. mul (p j) (sv j d)) bc 0 f_zero));
      }

  -- The template parameters, the sizes, and the place of the block; the tensors with their offsets.
  pub record Block : Type 0 where
    pub br : ℕ
    pub bc : ℕ
    pub head_dim : ℕ
    pub s_q : ℕ
    pub s_kv : ℕ
    pub scale : Float
    pub causal : Bool
    pub q_tile : ℕ
    pub bh : ℕ
    pub q : ℕ → Bf16
    pub k : ℕ → Bf16
    pub v : ℕ → Bf16

  module _ (b : Block) where
    abbrev pub q_row : ℕ → ℕ
    q_row row = b.q_tile * b.br + row

    -- Whether the warp `row` is in the turn that starts at `kv_start`.
    abbrev pub is_live : ℕ → ℕ → Bool
    is_live kv_start row =
        ltb (q_row row) b.s_q && (if b.causal && ltb (q_row row) kv_start then false else true)

    -- A tile of K or V, by the threads that are still in the loop.
    unfoldable pub load_kv : (ℕ → Bf16) → ℕ → (ℕ → ℕ → Float) → ℕ → ℕ → Float
    unfolding load_tile
    load_kv x kv_start tile =
        load_tile gpu
          (λ r d.
            if ltb (kv_start + r) b.s_kv
            then to_float (x ((kv_start + r) * b.head_dim + d))
            else f_zero)
          b.head_dim (b.bc * b.head_dim) (b.br * 32)
          (keep_if (λ tid. is_live kv_start (tid / 32))
            (loaders b.q_tile b.bh kv_start (b.br * 32)))
          tile

    -- The row of the queries, by the lanes of its warp.
    unfoldable pub load_q : ℕ → ℕ → Float
    unfolding load_tile
    load_q row d =
        load_tile gpu (λ r d. to_float (b.q (q_row row * b.head_dim + d))) b.head_dim b.head_dim 32
          (loaders b.q_tile b.bh row 32) (garbage b.q_tile b.bh) 0 d

    -- The score of a key that stands at `j` of the tile.
    unfoldable pub tile_score : (ℕ → ℕ → Float) → ℕ → ℕ → ℕ → Float
    unfolding load_q sum_loop
    tile_score sk kv_start row j =
        if leb b.s_kv (kv_start + j) || (b.causal && ltb (q_row row) (kv_start + j))
        then neg_big
        else mul (sum_loop gpu (λ d. mul (load_q row d) (sk j d)) b.head_dim 0 f_zero) b.scale

    -- The loop over the tiles of K and V from `kv_tile` on, with `turns` to go.
    unfoldable pub kv_loop : ℕ → ℕ → (ℕ → ℕ → Float) → (ℕ → ℕ → Float) → (ℕ → Row) → ℕ → Row
    unfolding load_kv tile_score row_step
    kv_loop zero kv_tile sk sv rows = rows
    kv_loop (suc turns) kv_tile sk sv rows =
        let kv_start = kv_tile * b.bc in
        let sk' = load_kv b.k kv_start sk in
        let sv' = load_kv b.v kv_start sv in
        kv_loop turns (kv_tile + 1) sk' sv' (λ row.
          if is_live kv_start row
          then row_step b.bc (tile_score sk' kv_start row) sv' (rows row)
          else rows row)

    -- `flash_attn_fwd_kernel` up to its output: the registers of each row.
    unfoldable pub flash_attn_fwd_kernel : ℕ → Row
    unfolding kv_loop
    flash_attn_fwd_kernel =
        kv_loop ((b.s_kv + b.bc - 1) / b.bc) 0 (garbage b.q_tile b.bh) (garbage b.q_tile b.bh)
          (λ row. start_row)
