-- ===== src/Sycl/Tiled.antt =====
-- `launch_matmul_sycl_bf16` (kernels/matmul_sycl.cpp) against `matmul_fp32_kernel` and `cpu_reference_gemm`.
use amp.Prelude.{
  ℕ, zero, suc, ◌+◌, ◌-◌, ◌*◌, ◌/◌, ◌%◌, ◌≤◌, ◌<◌, ◌≡◌, ◌≢◌, ◌⊎◌, refl, sym, ap, ◌∙◌, true, false,
  List, [], ◌∷◌, none, some, if◌then◌else◌, ltb, ◌==◌, ◌&&◌, has, arith,
}
use amp.Matmul.{
  Gpu, guarded, store, load_loop, load_tile, sum_loop, block_loop, in_order, write_cell,
  matmul_fp32_kernel, launch, launch_matmul, cpu_reference_gemm,
}
use amp.Matmul.Orders.{Covers}
use amp.Matmul.Sums.{IsGpu}
use amp.Matmul.Product.{launch_matmul_lem}
use amp.Sycl.{
  tile_16, local_stores, tile_loop, work_group, gemm_tiled_sycl, launch_matmul_sycl_bf16,
}

in_order_same {ℓ} :
    {S : Type ℓ} (f g : ℕ → S → S) (order : List ℕ)
    → ((t : ℕ) → has t order ≡ true → (s : S) → f t s ≡ g t s)
    → (s : S) → in_order f order s ≡ in_order g order s
unfolding in_order
in_order_same f g [] same s = refl
in_order_same f g (t ∷ ts) same s =
    in_order_same f g ts (λ u later. same u (ground (arith, later))) (f t s)
    ∙ ap (in_order g ts) (same t (ground arith) s)

module _ (gpu : Gpu) (Bf16 : Type 0) (to_float : Bf16 → gpu.Float) where
  -- A thread that strides by the size of the tile loads one cell.
  load_loop_once :
      (src : ℕ → ℕ → gpu.Float) (width size fuel tid : ℕ) (tile : ℕ → ℕ → gpu.Float)
      → tid < size
      → load_loop gpu src width size size (suc (suc fuel)) tid tile
        ≡ store gpu tile (tid / width) (tid % width) (src (tid / width) (tid % width))
  unfolding load_loop
  load_loop_once src width size fuel tid tile less =
      let go : ltb tid size ≡ true = ground arith in
      let end : ltb (tid + size) size ≡ false = ground arith in rw (go, end) refl

  local_stores-load_tile :
      (src : ℕ → ℕ → gpu.Float) (order : List ℕ) (tile : ℕ → ℕ → gpu.Float)
      → Covers order 256
      → local_stores gpu Bf16 to_float src order tile ≡ load_tile gpu src 16 256 256 order tile
  unfolding local_stores load_tile
  local_stores-load_tile src order tile covers =
      in_order_same (λ tid tile. store gpu tile (tid / 16) (tid % 16) (src (tid / 16) (tid % 16)))
        (λ tid tile. load_loop gpu src 16 256 256 256 tid tile) order
        (λ t here tile. sym (load_loop_once src 16 256 254 t tile (ground (arith, covers t)))) tile

  module _ (ok : IsGpu gpu) (a b : ℕ → Bf16) (m n k : ℕ) where
    abbrev a' : ℕ → gpu.Float
    a' i = to_float (a i)

    abbrev b' : ℕ → gpu.Float
    b' i = to_float (b i)

    tile_loop-block_loop :
        (by bx fuel t : ℕ) (la lb acc : ℕ → ℕ → gpu.Float)
        → tile_loop gpu Bf16 to_float a b m n k by bx fuel t la lb acc
          ≡ block_loop gpu tile_16 a' b' m n k by bx fuel t la lb acc
    unfolding tile_loop block_loop
    tile_loop-block_loop by bx zero t la lb acc = refl
    tile_loop-block_loop by bx (suc fuel) t la lb acc =
        let order = gpu.loaders by bx t 256 in
        let src_a = λ (r c : ℕ). guarded gpu a' m k (by * 16 + r) (t + c) in
        let src_b = λ (r c : ℕ). guarded gpu b' k n (t + r) (bx * 16 + c) in
        let covers = ok.all_loaders by bx t 256 in
        let next = λ (sa sb : ℕ → ℕ → gpu.Float).
          (let sum : ℕ → ℕ → gpu.Float =
              λ ty tx. sum_loop gpu (λ j. gpu.mul (sa ty j) (sb j tx)) 16 0 (acc ty tx) in
            if ltb t k
            then block_loop gpu tile_16 a' b' m n k by bx fuel (t + 16) sa sb sum
            else acc) in
        let la' = local_stores gpu Bf16 to_float src_a order la in
        let lb' = local_stores gpu Bf16 to_float src_b order lb in
        ap (λ rest. if ltb t k then rest else acc)
          (tile_loop-block_loop by bx fuel (t + 16) la' lb'
            (λ ty tx. sum_loop gpu (λ j. gpu.mul (la' ty j) (lb' j tx)) 16 0 (acc ty tx)))
        ∙ ap (λ sa. next sa lb') (local_stores-load_tile src_a order la covers)
        ∙ ap (next (load_tile gpu src_a 16 256 256 order la))
            (local_stores-load_tile src_b order lb covers)

    work_group-matmul_fp32_kernel :
        (by bx : ℕ) (c : ℕ → gpu.Float)
        → work_group gpu Bf16 to_float a b m n k by bx c
          ≡ matmul_fp32_kernel gpu tile_16 a' b' m n k by bx c
    unfolding work_group matmul_fp32_kernel
    work_group-matmul_fp32_kernel by bx c =
        ap
          (λ acc. in_order (write_cell gpu tile_16 a' b' m n k by bx acc) (gpu.writers by bx 256) c)
          (tile_loop-block_loop by bx k 0 (gpu.garbage by bx) (gpu.garbage by bx)
            (λ lr lc. gpu.f_zero))

    groups_are : (x : ℕ) → x % 16 ≡ 0 → x / 16 ≡ (x + 16 - 1) / 16
    groups_are x whole = omega arith

    groups-launch :
        (c : ℕ → gpu.Float)
        → m % 16 ≡ 0
        → n % 16 ≡ 0
        → in_order
            (λ i c. work_group gpu Bf16 to_float a b m n k (i / (n / 16)) (i % (n / 16)) c)
            (gpu.blocks (m / 16 * (n / 16)))
            c
          ≡ launch gpu tile_16 a' b' m n k c
    unfolding launch
    groups-launch c rows cols =
        let grid = λ (gy gx : ℕ).
          in_order (λ i c. matmul_fp32_kernel gpu tile_16 a' b' m n k (i / gx) (i % gx) c)
            (gpu.blocks (gy * gx)) c in
        in_order_same
          (λ i c. work_group gpu Bf16 to_float a b m n k (i / (n / 16)) (i % (n / 16)) c)
          (λ i c. matmul_fp32_kernel gpu tile_16 a' b' m n k (i / (n / 16)) (i % (n / 16)) c)
          (gpu.blocks (m / 16 * (n / 16)))
          (λ i here c. work_group-matmul_fp32_kernel (i / (n / 16)) (i % (n / 16)) c) c
        ∙ ap (λ gy. grid gy (n / 16)) (groups_are m rows)
        ∙ ap (grid ((m + 16 - 1) / 16)) (groups_are n cols)

    -- In the build without XMX a product whose rows and columns both come in sixteens is served: each
    -- cell of C holds what the reference gives for the converted matrices, whatever the order of groups
    -- and items, and nothing past C has changed. Every other product is refused, although the kernel guards its loads and stores.
    pub launch_matmul_sycl_bf16_lem :
        (c : ℕ → gpu.Float)
        → (m % 16 ≡ 0
            → n % 16 ≡ 0
            → (c' : ℕ → gpu.Float) × (launch_matmul_sycl_bf16 gpu Bf16 to_float a b m n k c
                ≡ some c')
              × ((i j : ℕ) → i < m → j < n → c' (i * n + j) ≡ cpu_reference_gemm gpu a' b' n k i j)
              × ((q : ℕ) → m * n ≤ q → c' q ≡ c q))
          × (m % 16 ≢ 0 ⊎ n % 16 ≢ 0 → launch_matmul_sycl_bf16 gpu Bf16 to_float a b m n k c ≡ none)
    unfolding launch_matmul_sycl_bf16 gemm_tiled_sycl launch_matmul
    launch_matmul_sycl_bf16_lem c =
        let run =
          in_order (λ i c. work_group gpu Bf16 to_float a b m n k (i / (n / 16)) (i % (n / 16)) c)
            (gpu.blocks (m / 16 * (n / 16))) c in
        (
          λ rows cols.
              (let whole : (m % 16 == 0 && n % 16 == 0) ≡ true = ground (arith, rows, cols) in
                let (c', runs, cells, past) = launch_matmul_lem gpu ok tile_16 a' b' m n k c refl in
                (
                  c',
                  ap (λ t. if t then some run else none) whole
                      ∙ ap some (groups-launch c rows cols)
                      ∙ runs,
                  cells,
                  past,
                )),
          λ ragged.
              (let refused : (m % 16 == 0 && n % 16 == 0) ≡ false = ground (arith, ragged) in
                ap (λ t. if t then some run else none) refused),
        )
