-- ===== src/Matmul/Blocks.antt =====
-- The register of a thread of `matmul_fp32_kernel` (kernels/matmul.cuh) at the end of its loop.
use amp.Prelude.{
  ℕ, zero, suc, ◌+◌, ◌-◌, ◌*◌, ◌/◌, ◌%◌, ◌≤◌, ◌<◌, ◌≡◌, refl, sym, ap, ◌∙◌, true, false,
  if◌then◌else◌, ltb, ◌&&◌, arith, inl, inr, Bool-cases,
}
use amp.Matmul.{Gpu, TileCfg, guarded, sum_loop, block_loop, cpu_reference_gemm, load_tile}
use amp.Matmul.Tiles.{load_tile_lem}
use amp.Matmul.Sums.{IsGpu, sum_loop-shift, sum_loop-IsSum, sum_loop-tile}

pub div_pair : (w r c : ℕ) → c < w → (r * w + c) / w ≡ r
div_pair w r c h = grind arith

pub mod_pair : (w r c : ℕ) → c < w → (r * w + c) % w ≡ c
mod_pair w r c h = grind arith

pub pair_lt : (w h r c : ℕ) → r < h → c < w → r * w + c < h * w
pair_lt w h r c lr lc = grind arith

pub same_pair : (w r c i j : ℕ) → c < w → j < w → r * w + c ≡ i * w + j → (r ≡ i) × (c ≡ j)
same_pair w r c i j lc lj e = (
  sym (div_pair w r c lc) ∙ ap (λ x. x / w) e ∙ div_pair w i j lj,
  sym (mod_pair w r c lc) ∙ ap (λ x. x % w) e ∙ mod_pair w i j lj,
)

pub div_lt : (w h t : ℕ) → 0 < w → t < h * w → t / w < h
div_lt w h t pos less = grind arith

pub div_ceil : (w n j : ℕ) → 0 < w → j < n → j / w < (n + w - 1) / w
div_ceil w n j pos less = grind arith

module _ (gpu : Gpu) (ok : IsGpu gpu) (cfg : TileCfg) (a b : ℕ → gpu.Float) (m n k : ℕ)
    (rows : 0 < cfg.bm) (cols : 0 < cfg.bn) (depth : 0 < cfg.bk) where
  -- The products of a row of A and a column of B, with zeros around the matrices.
  abbrev terms : ℕ → ℕ → ℕ → gpu.Float
  terms row col j = gpu.mul (guarded gpu a m k row j) (guarded gpu b k n j col)

  terms_padding : (row col j : ℕ) → k ≤ j → terms row col j ≡ gpu.mul gpu.f_zero gpu.f_zero
  terms_padding row col j past =
      let out : ltb j k ≡ false = ground arith in
      let no_a : (ltb row m && ltb j k) ≡ false = ground arith in
      let no_b : (ltb j k && ltb col n) ≡ false = ground arith in
      ap (λ t. gpu.mul (if t then a (row * k + j) else gpu.f_zero) (guarded gpu b k n j col)) no_a
      ∙ ap (λ t. gpu.mul gpu.f_zero (if t then b (j * n + col) else gpu.f_zero)) no_b

  module _ (by bx ty tx : ℕ) (ly : ty < cfg.bm) (lx : tx < cfg.bn) where
    block_loop_lem :
        (fuel kb : ℕ) (sa sb acc : ℕ → ℕ → gpu.Float)
        → k ≤ kb + fuel
        → ok.IsSum (acc ty tx)
        → block_loop gpu cfg a b m n k by bx fuel kb sa sb acc ty tx
          ≡ sum_loop gpu (terms (by * cfg.bm + ty) (bx * cfg.bn + tx)) (k - kb) kb (acc ty tx)
    unfolding block_loop sum_loop
    block_loop_lem zero kb sa sb acc enough h =
        let none_left : k - kb ≡ 0 = omega arith in rw none_left refl
    block_loop_lem (suc fuel) kb sa sb acc enough h = elim (Bool-cases (ltb kb k)) [
      | inr end ↦ let none_left : k - kb ≡ 0 = ground arith in rw (end, none_left, block_loop) refl
      | inl go ↦
          let f = terms (by * cfg.bm + ty) (bx * cfg.bn + tx) in
          let threads = cfg.bm * cfg.bn in
          let order = gpu.loaders by bx kb threads in
          let all = ok.all_loaders by bx kb threads in
          let pos : 0 < threads = grind arith in
          let sa' =
            load_tile gpu (λ r c. guarded gpu a m k (by * cfg.bm + r) (kb + c)) cfg.bk
              (cfg.bm * cfg.bk) threads order sa in
          let sb' =
            load_tile gpu (λ r c. guarded gpu b k n (kb + r) (bx * cfg.bn + c)) cfg.bn
              (cfg.bk * cfg.bn) threads order sb in
          let acc' : ℕ → ℕ → gpu.Float =
            λ ty tx. sum_loop gpu (λ j. gpu.mul (sa' ty j) (sb' j tx)) cfg.bk 0 (acc ty tx) in
          let loaded : (j : ℕ) → j < 0 + cfg.bk → gpu.mul (sa' ty j) (sb' j tx) ≡ f (kb + j) =
            λ j less.
              (let lj : j < cfg.bk = omega arith in
                let row =
                  load_tile_lem gpu (λ r c. guarded gpu a m k (by * cfg.bm + r) (kb + c)) cfg.bk
                    (cfg.bm * cfg.bk) threads ty j order sa all pos lj
                    (pair_lt cfg.bk cfg.bm ty j ly lj) in
                let col =
                  load_tile_lem gpu (λ r c. guarded gpu b k n (kb + r) (bx * cfg.bn + c)) cfg.bn
                    (cfg.bk * cfg.bn) threads j tx order sb all pos lx
                    (pair_lt cfg.bn cfg.bk j tx lj lx) in
                ap (λ x. gpu.mul x (sb' j tx)) row
                ∙ ap (gpu.mul (guarded gpu a m k (by * cfg.bm + ty) (kb + j))) col) in
          let tile : acc' ty tx ≡ sum_loop gpu f cfg.bk kb (acc ty tx) =
            sum_loop-shift gpu (λ j. gpu.mul (sa' ty j) (sb' j tx)) f kb cfg.bk 0 (acc ty tx) loaded
            ∙ ap (λ x. sum_loop gpu f cfg.bk x (acc ty tx)) (omega arith) in
          let less : kb < k = ground arith in
          let sum' : ok.IsSum (acc' ty tx) =
            sum_loop-IsSum gpu ok (λ j. gpu.mul (sa' ty j) (sb' j tx)) cfg.bk 0 (acc ty tx) h in
          rw (go, block_loop)
            (block_loop_lem fuel (kb + cfg.bk) sa' sb' acc' (omega arith) sum'
              ∙ ap (sum_loop gpu f (k - (kb + cfg.bk)) (kb + cfg.bk)) tile
              ∙ sum_loop-tile gpu ok f k cfg.bk kb (acc ty tx)
                  (terms_padding (by * cfg.bm + ty) (bx * cfg.bn + tx)) less h)
    ]

    -- What a thread of the output has at the end is the cell of the reference.
    pub block_lem :
        by * cfg.bm + ty < m
        → bx * cfg.bn + tx < n
        → block_loop gpu cfg a b m n k by bx k 0
            (gpu.garbage by bx)
            (gpu.garbage by bx)
            (λ ty tx. gpu.f_zero)
            ty
            tx
          ≡ cpu_reference_gemm gpu a b n k (by * cfg.bm + ty) (bx * cfg.bn + tx)
    unfolding cpu_reference_gemm
    block_lem lr lc =
        let row = by * cfg.bm + ty in
        let col = bx * cfg.bn + tx in
        let plain = λ (j : ℕ). gpu.mul (a (row * k + j)) (b (j * n + col)) in
        let same : (j : ℕ) → j < 0 + k → terms row col j ≡ plain (0 + j) = λ j less.
          (let in_a : (ltb row m && ltb j k) ≡ true = ground arith in
            let in_b : (ltb j k && ltb col n) ≡ true = ground arith in
            let j_is : j ≡ 0 + j = omega arith in
            ap (λ t. gpu.mul (if t then a (row * k + j) else gpu.f_zero) (guarded gpu b k n j col))
              in_a
            ∙ ap (λ t. gpu.mul (a (row * k + j)) (if t then b (j * n + col) else gpu.f_zero)) in_b
            ∙ ap plain j_is) in
        let all : k - 0 ≡ k = omega arith in
        block_loop_lem k 0 (gpu.garbage by bx) (gpu.garbage by bx) (λ ty tx. gpu.f_zero)
          (omega arith) ok.zero-IsSum
        ∙ ap (λ x. sum_loop gpu (terms row col) x 0 gpu.f_zero) all
        ∙ sum_loop-shift gpu (terms row col) plain 0 k 0 gpu.f_zero same
        ∙ ap (λ x. sum_loop gpu plain k x gpu.f_zero) (omega arith)
