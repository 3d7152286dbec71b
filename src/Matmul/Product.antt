-- ===== src/Matmul/Product.antt =====
-- `launch_matmul` (kernels/matmul.cu) against `cpu_reference_gemm` of its test.
use amp.Prelude.{
  ℕ, ◌+◌, ◌-◌, ◌*◌, ◌/◌, ◌%◌, ◌≤◌, ◌<◌, ◌≡◌, refl, sym, ap, ◌∙◌, subst, true, none, some,
  if◌then◌else◌, ltb, ◌==◌, ◌&&◌, arith, inl, inr, Bool-cases,
}
use amp.Matmul.{
  Gpu, TileCfg, block_loop, write_cell, matmul_fp32_kernel, launch, is_compiled, launch_matmul,
  cpu_reference_gemm,
}
use amp.Matmul.Orders.{in_order_lem, in_order_only}
use amp.Matmul.Blocks.{div_pair, mod_pair, pair_lt, same_pair, div_lt, div_ceil, block_lem}
use amp.Matmul.Sums.{IsGpu}

is_compiled-positive :
    (cfg : TileCfg) → is_compiled cfg ≡ true → (0 < cfg.bm) × (0 < cfg.bn) × (0 < cfg.bk)
is_compiled-positive cfg h = (ground arith, ground arith, ground arith)

module _ (gpu : Gpu) (ok : IsGpu gpu) (cfg : TileCfg) (a b : ℕ → gpu.Float) (m n k : ℕ)
    (rows : 0 < cfg.bm) (cols : 0 < cfg.bn) (depth : 0 < cfg.bk) where
  registers : ℕ → ℕ → ℕ → ℕ → gpu.Float
  registers by bx =
      block_loop gpu cfg a b m n k by bx k 0 (gpu.garbage by bx) (gpu.garbage by bx)
        (λ ty tx. gpu.f_zero)

  module _ (i j : ℕ) (li : i < m) (lj : j < n) where
    -- The cell `(i, j)` holds what the reference gives for it.
    abbrev Right : (ℕ → gpu.Float) → Type 0
    Right c = c (i * n + j) ≡ cpu_reference_gemm gpu a b n k i j

    write_cell_keeps :
        (by bx tid : ℕ) (c : ℕ → gpu.Float)
        → tid < cfg.bm * cfg.bn
        → Right c
        → Right (write_cell gpu cfg a b m n k by bx (registers by bx) tid c)
    unfolding registers
    write_cell_keeps by bx tid c less h =
        let ty = tid / cfg.bn in
        let tx = tid % cfg.bn in
        let row = by * cfg.bm + ty in
        let col = bx * cfg.bn + tx in
        let lx : tx < cfg.bn = omega arith in
        elim (Bool-cases ((ltb row m && ltb col n) && row * n + col == i * n + j)) [
          | inr other ↦ ap (λ t. if t then registers by bx ty tx else c (i * n + j)) other ∙ h
          | inl here ↦
              let lr : row < m = ground arith in
              let lc : col < n = ground arith in
              let at_ : row * n + col ≡ i * n + j = ground arith in
              let (row_is, col_is) = same_pair n row col i j lc lj at_ in
              ap (λ t. if t then registers by bx ty tx else c (i * n + j)) here
              ∙ block_lem gpu ok cfg a b m n k rows cols depth by bx ty tx
                  (div_lt cfg.bn cfg.bm tid cols less) lx lr lc
              ∙ ap (λ x. cpu_reference_gemm gpu a b n k x col) row_is
              ∙ ap (cpu_reference_gemm gpu a b n k i) col_is
        ]

    write_cell_sets :
        (by bx tid : ℕ) (c : ℕ → gpu.Float)
        → tid < cfg.bm * cfg.bn
        → by * cfg.bm + tid / cfg.bn ≡ i
        → bx * cfg.bn + tid % cfg.bn ≡ j
        → Right (write_cell gpu cfg a b m n k by bx (registers by bx) tid c)
    unfolding registers
    write_cell_sets by bx tid c less row_is col_is =
        let ty = tid / cfg.bn in
        let tx = tid % cfg.bn in
        let row = by * cfg.bm + ty in
        let col = bx * cfg.bn + tx in
        let lx : tx < cfg.bn = omega arith in
        let place : row * n + col ≡ i * n + j =
          ap (λ x. x * n + col) row_is ∙ ap (λ x. i * n + x) col_is in
        let here : ((ltb row m && ltb col n) && row * n + col == i * n + j) ≡ true =
          ground (arith, place, row_is, col_is) in
        ap (λ t. if t then registers by bx ty tx else c (i * n + j)) here
        ∙ block_lem gpu ok cfg a b m n k rows cols depth by bx ty tx
            (div_lt cfg.bn cfg.bm tid cols less) lx (omega (arith, row_is)) (omega (arith, col_is))
        ∙ ap (λ x. cpu_reference_gemm gpu a b n k x col) row_is
        ∙ ap (cpu_reference_gemm gpu a b n k i) col_is

    kernel_keeps :
        (by bx : ℕ) (c : ℕ → gpu.Float)
        → Right c
        → Right (matmul_fp32_kernel gpu cfg a b m n k by bx c)
    unfolding matmul_fp32_kernel registers
    kernel_keeps by bx =
        in_order_only (write_cell gpu cfg a b m n k by bx (registers by bx)) Right _
          (cfg.bm * cfg.bn) (ok.all_writers by bx (cfg.bm * cfg.bn))
          (λ tid less c. write_cell_keeps by bx tid c less)

    kernel_sets :
        (c : ℕ → gpu.Float)
        → Right (matmul_fp32_kernel gpu cfg a b m n k (i / cfg.bm) (j / cfg.bn) c)
    unfolding matmul_fp32_kernel registers
    kernel_sets =
        let by = i / cfg.bm in
        let bx = j / cfg.bn in
        let ty = i % cfg.bm in
        let tx = j % cfg.bn in
        let tid = ty * cfg.bn + tx in
        let ly : ty < cfg.bm = omega arith in
        let lx : tx < cfg.bn = omega arith in
        let less = pair_lt cfg.bn cfg.bm ty tx ly lx in
        let row_is : by * cfg.bm + tid / cfg.bn ≡ i =
          ap (λ x. by * cfg.bm + x) (div_pair cfg.bn ty tx lx) ∙ grind arith in
        let col_is : bx * cfg.bn + tid % cfg.bn ≡ j =
          ap (λ x. bx * cfg.bn + x) (mod_pair cfg.bn ty tx lx) ∙ grind arith in
        in_order_lem (write_cell gpu cfg a b m n k by bx (registers by bx)) Right _
          (cfg.bm * cfg.bn) tid (ok.all_writers by bx (cfg.bm * cfg.bn)) less
          (λ u lu c. write_cell_keeps by bx u c lu)
          (λ c. write_cell_sets by bx tid c less row_is col_is)

    launch-Right : (c : ℕ → gpu.Float) → Right (launch gpu cfg a b m n k c)
    unfolding launch
    launch-Right =
        let gx = (n + cfg.bn - 1) / cfg.bn in
        let gy = (m + cfg.bm - 1) / cfg.bm in
        let by = i / cfg.bm in
        let bx = j / cfg.bn in
        let lx : bx < gx = div_ceil cfg.bn n j cols lj in
        let ly : by < gy = div_ceil cfg.bm m i rows li in
        let row : (by * gx + bx) / gx ≡ by = div_pair gx by bx lx in
        let col : (by * gx + bx) % gx ≡ bx = mod_pair gx by bx lx in
        in_order_lem (λ t c. matmul_fp32_kernel gpu cfg a b m n k (t / gx) (t % gx) c) Right
          (gpu.blocks (gy * gx)) (gy * gx) (by * gx + bx) (ok.all_blocks (gy * gx))
          (pair_lt gx gy by bx ly lx) (λ u lu c. kernel_keeps (u / gx) (u % gx) c)
          (λ c.
            subst (λ y. Right (matmul_fp32_kernel gpu cfg a b m n k y ((by * gx + bx) % gx) c))
              (sym row)
              (subst (λ x. Right (matmul_fp32_kernel gpu cfg a b m n k by x c)) (sym col)
                (kernel_sets c)))

  module _ (q : ℕ) (past : m * n ≤ q) where
    write_cell_past :
        (by bx tid : ℕ) (acc : ℕ → ℕ → gpu.Float) (c : ℕ → gpu.Float)
        → write_cell gpu cfg a b m n k by bx acc tid c q ≡ c q
    write_cell_past by bx tid acc c =
        let row = by * cfg.bm + tid / cfg.bn in
        let col = bx * cfg.bn + tid % cfg.bn in
        elim (Bool-cases ((ltb row m && ltb col n) && row * n + col == q)) [
          | inr other ↦ ap (λ t. if t then acc (tid / cfg.bn) (tid % cfg.bn) else c q) other
          | inl here ↦
              let lr : row < m = ground arith in
              let lc : col < n = ground arith in
              let place : row * n + col ≡ q = ground arith in
              absurd (omega (arith, pair_lt n m row col lr lc))
        ]

    kernel_past :
        (by bx : ℕ) (c : ℕ → gpu.Float) → matmul_fp32_kernel gpu cfg a b m n k by bx c q ≡ c q
    unfolding matmul_fp32_kernel registers
    kernel_past by bx c =
        in_order_only (write_cell gpu cfg a b m n k by bx (registers by bx)) (λ c'. c' q ≡ c q) _
          (cfg.bm * cfg.bn) (ok.all_writers by bx (cfg.bm * cfg.bn))
          (λ tid less c' h. write_cell_past by bx tid (registers by bx) c' ∙ h) c refl

    launch_past : (c : ℕ → gpu.Float) → launch gpu cfg a b m n k c q ≡ c q
    unfolding launch
    launch_past c =
        let gx = (n + cfg.bn - 1) / cfg.bn in
        let gy = (m + cfg.bm - 1) / cfg.bm in
        in_order_only (λ t c. matmul_fp32_kernel gpu cfg a b m n k (t / gx) (t % gx) c)
          (λ c'. c' q ≡ c q) (gpu.blocks (gy * gx)) (gy * gx) (ok.all_blocks (gy * gx))
          (λ u lu c' h. kernel_past (u / gx) (u % gx) c' ∙ h) c refl

-- On a device that runs each block and each thread once, in whatever order, `launch_matmul` returns
-- for each of the compiled tiles and all sizes; each cell of C then holds what `cpu_reference_gemm`
-- gives, and no cell past the end of C has changed.
pub launch_matmul_lem :
    (gpu : Gpu) (ok : IsGpu gpu) (cfg : TileCfg) (a b : ℕ → gpu.Float) (m n k : ℕ)
    (c : ℕ → gpu.Float)
    → is_compiled cfg ≡ true
    → (c' : ℕ → gpu.Float) × (launch_matmul gpu cfg a b m n k c ≡ some c')
      × ((i j : ℕ) → i < m → j < n → c' (i * n + j) ≡ cpu_reference_gemm gpu a b n k i j)
      × ((q : ℕ) → m * n ≤ q → c' q ≡ c q)
unfolding launch_matmul
launch_matmul_lem gpu ok cfg a b m n k c compiled =
    let (rows, cols, depth) = is_compiled-positive cfg compiled in
    (
      launch gpu cfg a b m n k c,
      ap (λ t. if t then some (launch gpu cfg a b m n k c) else none) compiled,
      (λ i j li lj. launch-Right gpu ok cfg a b m n k rows cols depth i j li lj c),
      (λ q past. launch_past gpu ok cfg a b m n k rows cols depth q past c),
    )
