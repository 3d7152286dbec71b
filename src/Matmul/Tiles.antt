-- ===== src/Matmul/Tiles.antt =====
-- The cooperative loads of kernels/matmul.cuh fill the tile, whatever the order of the threads.
use amp.Prelude.{
  ℕ, zero, suc, ◌+◌, ◌*◌, ◌/◌, ◌%◌, ◌<◌, ◌≡◌, refl, ap, ◌∙◌, true, List, ltb, ◌==◌, ◌&&◌, arith,
  inl, inr, Bool-cases,
}
use amp.Matmul.{Gpu, store, load_loop, load_tile}
use amp.Matmul.Orders.{Covers, in_order_lem}

module _ (gpu : Gpu) (src : ℕ → ℕ → gpu.Float) (width size stride : ℕ) (r c : ℕ) where
  store_keeps :
      (i j : ℕ) (tile : ℕ → ℕ → gpu.Float)
      → tile r c ≡ src r c
      → store gpu tile i j (src i j) r c ≡ src r c
  store_keeps i j tile h = elim (Bool-cases (i == r && j == c)) [
    | inr other ↦ rw other h
    | inl here ↦
        let i_is : i ≡ r = ground arith in
        let j_is : j ≡ c = ground arith in rw (here, i_is, j_is) refl
  ]

  -- A loaded cell stays so.
  load_loop_keeps :
      (fuel idx : ℕ) (tile : ℕ → ℕ → gpu.Float)
      → tile r c ≡ src r c
      → load_loop gpu src width size stride fuel idx tile r c ≡ src r c
  unfolding load_loop
  load_loop_keeps zero idx tile h = h
  load_loop_keeps (suc fuel) idx tile h = elim (Bool-cases (ltb idx size)) [
    | inr end ↦ rw (end, load_loop) h
    | inl go ↦
        rw (go, load_loop)
          (load_loop_keeps fuel (idx + stride) _ (store_keeps (idx / width) (idx % width) tile h))
  ]

  -- The thread that starts at `idx` gets to the cell after `turns` turns.
  load_loop_sets :
      (turns fuel idx : ℕ) (tile : ℕ → ℕ → gpu.Float)
      → idx + turns * stride ≡ r * width + c
      → c < width
      → r * width + c < size
      → turns < fuel
      → load_loop gpu src width size stride fuel idx tile r c ≡ src r c
  unfolding load_loop
  load_loop_sets turns zero idx tile at_ lc ls lf = absurd (omega arith)
  load_loop_sets zero (suc fuel) idx tile at_ lc ls lf =
      let idx_is : idx ≡ r * width + c = omega (arith, at_) in
      let go : ltb idx size ≡ true = ground arith in
      let row : idx / width ≡ r = ap (λ x. x / width) idx_is ∙ grind arith in
      let col : idx % width ≡ c = ap (λ x. x % width) idx_is ∙ grind arith in
      let here : (idx / width == r && idx % width == c) ≡ true = ground (arith, row, col) in
      let written : store gpu tile (idx / width) (idx % width) (src (idx / width) (idx % width)) r c
          ≡ src r c =
        rw (here, row, col) refl in
      rw (go, load_loop) (load_loop_keeps fuel (idx + stride) _ written)
  load_loop_sets (suc turns) (suc fuel) idx tile at_ lc ls lf =
      let go : ltb idx size ≡ true = ground (arith, at_) in
      rw (go, load_loop)
        (load_loop_sets turns fuel (idx + stride) _ (omega (arith, at_)) lc ls (omega arith))

  -- After the loads of all threads a cell of the tile holds what the source has for it.
  pub load_tile_lem :
      (order : List ℕ) (tile : ℕ → ℕ → gpu.Float)
      → Covers order stride
      → 0 < stride
      → c < width
      → r * width + c < size
      → load_tile gpu src width size stride order tile r c ≡ src r c
  unfolding load_tile
  load_tile_lem order tile covers pos lc ls =
      let idx = r * width + c in
      let split : idx % stride + (idx / stride) * stride ≡ idx = grind arith in
      let few : idx / stride < size = grind arith in
      in_order_lem (λ tid tile. load_loop gpu src width size stride size tid tile)
        (λ t. t r c ≡ src r c) order stride (idx % stride) covers (grind arith)
        (λ u less t h. load_loop_keeps size u t h)
        (λ t. load_loop_sets (idx / stride) size (idx % stride) t split lc ls few) tile
