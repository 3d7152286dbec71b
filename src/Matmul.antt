-- ===== src/Matmul.antt =====
-- kernels/matmul.cuh and kernels/matmul.cu: the tiled FP32 product on a GPU. A device array is a
-- function of the index. Between two barriers the threads of a block run one after the other, and the
-- blocks of a grid too, in orders that the device chooses; what shared memory holds before is its
-- choice as well. `float` and its operations are parameters.
pub mod Orders
pub mod Tiles
pub mod Sums
pub mod Blocks
pub mod Product
use amp.Prelude.{
  ℕ, zero, suc, ◌+◌, ◌-◌, ◌*◌, ◌/◌, ◌%◌, ◌<◌, ◌≡◌, Bool, true, false, List, [], ◌∷◌, Option, none,
  some, if◌then◌else◌, ltb, ◌==◌, ◌&&◌, ◌||◌, has,
}

-- `float`, and what the device chooses: `blocks` is the order of the blocks of a grid, `loaders` and
-- `writers` that of the threads of a block between barriers.
pub record Gpu : Type 1 where
  pub Float : Type 0
  pub f_zero : Float
  pub add : Float → Float → Float
  pub mul : Float → Float → Float
  pub blocks : ℕ → List ℕ
  pub loaders : ℕ → ℕ → ℕ → ℕ → List ℕ
  pub writers : ℕ → ℕ → ℕ → List ℕ
  pub garbage : ℕ → ℕ → ℕ → ℕ → Float

-- `struct TileCfg`: the fields that the FP32 product reads.
pub record TileCfg : Type 0 where
  pub bm : ℕ
  pub bn : ℕ
  pub bk : ℕ

abbrev pub is_tile : ℕ → ℕ → ℕ → TileCfg → Bool
is_tile bm bn bk cfg = (cfg.bm == bm && cfg.bn == bn) && cfg.bk == bk

-- The tiles of DISPATCH_FP32 in `launch_matmul`.
abbrev pub is_compiled : TileCfg → Bool
is_compiled cfg =
    (is_tile 16 16 16 cfg || is_tile 32 16 16 cfg) || (is_tile 32 32 16 cfg || is_tile 32 32 32 cfg)

-- A task for each number in turn.
unfoldable pub in_order {ℓ} : {S : Type ℓ} → (ℕ → S → S) → List ℕ → S → S
in_order step [] s = s
in_order step (t ∷ ts) s = in_order step ts (step t s)

module _ (gpu : Gpu) where
  open gpu use {Float, f_zero, add, mul, blocks, loaders, writers, garbage}

  -- `(r < rows && c < cols) ? X[r * cols + c] : 0.0f`
  abbrev pub guarded : (ℕ → Float) → ℕ → ℕ → ℕ → ℕ → Float
  guarded x rows cols r c = if ltb r rows && ltb c cols then x (r * cols + c) else f_zero

  abbrev pub store : (ℕ → ℕ → Float) → ℕ → ℕ → Float → ℕ → ℕ → Float
  store tile r c v i j = if r == i && c == j then v else tile i j

  -- `for (idx = tid; idx < size; idx += stride)`: as many turns as `size` are enough.
  unfoldable pub load_loop : (ℕ → ℕ → Float) → ℕ → ℕ → ℕ → ℕ → ℕ → (ℕ → ℕ → Float) → ℕ → ℕ → Float
  load_loop src width size stride zero idx tile = tile
  load_loop src width size stride (suc fuel) idx tile =
      let r = idx / width in
      let c = idx % width in
      let rest = load_loop src width size stride fuel (idx + stride) (store tile r c (src r c)) in
      if ltb idx size then rest else tile

  -- The loads of a tile by the threads of a block.
  unfoldable pub load_tile : (ℕ → ℕ → Float) → ℕ → ℕ → ℕ → List ℕ → (ℕ → ℕ → Float) → ℕ → ℕ → Float
  unfolding in_order load_loop
  load_tile src width size stride order =
      in_order (λ tid tile. load_loop src width size stride size tid tile) order

  -- `for (k = from; n turns; ++k) acc += f(k)`
  unfoldable pub sum_loop : (ℕ → Float) → ℕ → ℕ → Float → Float
  sum_loop f zero k acc = acc
  sum_loop f (suc n) k acc = sum_loop f n (k + 1) (add acc (f k))

  module _ (cfg : TileCfg) (a b : ℕ → Float) (m n k : ℕ) (by bx : ℕ) where
    -- The loop over `kb`: as many turns as `k` are enough. `acc` is the register of each thread.
    unfoldable pub block_loop :
        ℕ → ℕ → (ℕ → ℕ → Float) → (ℕ → ℕ → Float) → (ℕ → ℕ → Float) → ℕ → ℕ → Float
    unfolding load_tile sum_loop
    block_loop zero kb sa sb acc = acc
    block_loop (suc fuel) kb sa sb acc =
        let threads = cfg.bm * cfg.bn in
        let order = loaders by bx kb threads in
        let sa' =
          load_tile (λ r c. guarded a m k (by * cfg.bm + r) (kb + c)) cfg.bk (cfg.bm * cfg.bk)
            threads order sa in
        let sb' =
          load_tile (λ r c. guarded b k n (kb + r) (bx * cfg.bn + c)) cfg.bn (cfg.bk * cfg.bn)
            threads order sb in
        let acc' : ℕ → ℕ → Float =
          λ ty tx. sum_loop (λ j. mul (sa' ty j) (sb' j tx)) cfg.bk 0 (acc ty tx) in
        let rest = block_loop fuel (kb + cfg.bk) sa' sb' acc' in if ltb kb k then rest else acc

    -- `if (row < M && col < N) C[row * N + col] = acc`
    abbrev pub write_cell : (ℕ → ℕ → Float) → ℕ → (ℕ → Float) → ℕ → Float
    write_cell acc tid c i =
        let row = by * cfg.bm + tid / cfg.bn in
        let col = bx * cfg.bn + tid % cfg.bn in
        if (ltb row m && ltb col n) && row * n + col == i
        then acc (tid / cfg.bn) (tid % cfg.bn)
        else c i

    -- `matmul_fp32_kernel`, for the block `(by, bx)`.
    unfoldable pub matmul_fp32_kernel : (ℕ → Float) → ℕ → Float
    unfolding block_loop in_order
    matmul_fp32_kernel c =
        in_order (write_cell (block_loop k 0 (garbage by bx) (garbage by bx) (λ ty tx. f_zero)))
          (writers by bx (cfg.bm * cfg.bn)) c

  -- A launch on the grid of DISPATCH_FP32; a block is numbered row by row.
  unfoldable pub launch : TileCfg → (ℕ → Float) → (ℕ → Float) → ℕ → ℕ → ℕ → (ℕ → Float) → ℕ → Float
  unfolding matmul_fp32_kernel in_order
  launch cfg a b m n k c =
      let gx = (n + cfg.bn - 1) / cfg.bn in
      let gy = (m + cfg.bm - 1) / cfg.bm in
      in_order (λ i c. matmul_fp32_kernel cfg a b m n k (i / gx) (i % gx) c) (blocks (gy * gx)) c

  -- `launch_matmul`; `none` is the exception of a tile that is not compiled in.
  unfoldable pub launch_matmul :
      TileCfg → (ℕ → Float) → (ℕ → Float) → ℕ → ℕ → ℕ → (ℕ → Float) → Option (ℕ → Float)
  unfolding launch
  launch_matmul cfg a b m n k c = if is_compiled cfg then some (launch cfg a b m n k c) else none

  -- The cell `(i, j)` of `cpu_reference_gemm`.
  unfoldable pub cpu_reference_gemm : (ℕ → Float) → (ℕ → Float) → ℕ → ℕ → ℕ → ℕ → Float
  unfolding sum_loop
  cpu_reference_gemm a b n k i j = sum_loop (λ l. mul (a (i * k + l)) (b (l * n + j))) k 0 f_zero
