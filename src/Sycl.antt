-- ===== src/Sycl.antt =====
-- The product without matrix units of kernels/matmul_sycl.cpp. Work-items run one after the other
-- between two barriers, and work-groups too, in the orders of a `Gpu` of Matmul; `to_float` is the
-- conversion of the type of the tensors. The two local arrays do not overlap, so that the stores into
-- each are run apart.
pub mod Tiled
use amp.Prelude.{
  ℕ, zero, suc, ◌+◌, ◌*◌, ◌/◌, ◌%◌, Bool, true, false, List, Option, none, some, if◌then◌else◌, ltb,
  ◌==◌, ◌&&◌,
}
use amp.Matmul.{Gpu, TileCfg, guarded, store, sum_loop, in_order, write_cell}

-- `TILE`: a work-group of 16 by 16 items.
abbrev pub tile_16 : TileCfg
tile_16 = record { bm = 16; bn = 16; bk = 16 }

module _ (gpu : Gpu) (Bf16 : Type 0) (to_float : Bf16 → gpu.Float) where
  open gpu use {Float, f_zero, mul, blocks, loaders, writers, garbage}

  -- The stores of the work-items into a local array, each at its own place.
  unfoldable pub local_stores : (ℕ → ℕ → Float) → List ℕ → (ℕ → ℕ → Float) → ℕ → ℕ → Float
  unfolding in_order
  local_stores src order =
      in_order (λ tid tile. store gpu tile (tid / 16) (tid % 16) (src (tid / 16) (tid % 16))) order

  module _ (a b : ℕ → Bf16) (m n k : ℕ) where
    -- `for (t = from; t < K; t += TILE)`: as many turns as `k` are enough.
    unfoldable pub tile_loop :
        ℕ → ℕ → ℕ → ℕ → (ℕ → ℕ → Float) → (ℕ → ℕ → Float) → (ℕ → ℕ → Float) → ℕ → ℕ → Float
    unfolding local_stores sum_loop
    tile_loop by bx zero t la lb acc = acc
    tile_loop by bx (suc fuel) t la lb acc =
        let order = loaders by bx t 256 in
        let la' =
          local_stores (λ lr lc. guarded gpu (λ i. to_float (a i)) m k (by * 16 + lr) (t + lc))
            order la in
        let lb' =
          local_stores (λ lr lc. guarded gpu (λ i. to_float (b i)) k n (t + lr) (bx * 16 + lc))
            order lb in
        let acc' : ℕ → ℕ → Float =
          λ lr lc. sum_loop gpu (λ j. mul (la' lr j) (lb' j lc)) 16 0 (acc lr lc) in
        let rest = tile_loop by bx fuel (t + 16) la' lb' acc' in if ltb t k then rest else acc

    -- The kernel, for the work-group `(by, bx)`.
    unfoldable pub work_group : ℕ → ℕ → (ℕ → Float) → ℕ → Float
    unfolding tile_loop in_order
    work_group by bx c =
        in_order
          (write_cell gpu tile_16 (λ i. to_float (a i)) (λ i. to_float (b i)) m n k by bx
            (tile_loop by bx k 0 (garbage by bx) (garbage by bx) (λ lr lc. f_zero)))
          (writers by bx 256) c

    -- `gemm_tiled_sycl`; `none` is the exception of an `nd_range` whose global range is no multiple of
    -- its local one.
    unfoldable pub gemm_tiled_sycl : (ℕ → Float) → Option (ℕ → Float)
    unfolding work_group in_order
    gemm_tiled_sycl c =
        if m % 16 == 0 && n % 16 == 0
        then some (
            in_order (λ i c. work_group (i / (n / 16)) (i % (n / 16)) c)
              (blocks (m / 16 * (n / 16))) c)
        else none

    -- `launch_matmul_sycl_bf16` without XMX, less the time it measures.
    unfoldable pub launch_matmul_sycl_bf16 : (ℕ → Float) → Option (ℕ → Float)
    unfolding gemm_tiled_sycl
    launch_matmul_sycl_bf16 c = gemm_tiled_sycl c
