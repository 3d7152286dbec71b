-- ===== src/Tests/Matmuls.antt =====
-- `launch_matmul` (kernels/matmul.cu) and `launch_matmul_sycl_bf16` (kernels/matmul_sycl.cpp) over natural
-- numbers, on a device that counts down.
use amp.Prelude.{
  ℕ, zero, suc, ◌+◌, ◌*◌, ◌≤◌, ◌<◌, ◌≡◌, ◌≢◌, ◌⊎◌, ◌%◌, none, refl, List, [], ◌∷◌, some, get_or,
  arith,
}
use amp.Matmul.{Gpu, TileCfg, launch_matmul, cpu_reference_gemm}
use amp.Matmul.Orders.{Covers}
use amp.Matmul.Sums.{IsGpu}
use amp.Matmul.Product.{launch_matmul_lem}
use amp.Sycl.{launch_matmul_sycl_bf16, gemm_tiled_sycl}
use amp.Sycl.Tiled.{launch_matmul_sycl_bf16_lem}

abbrev pub down : ℕ → List ℕ
down zero = []
down (suc n) = n ∷ down n

pub down-Covers : (n : ℕ) → Covers (down n) n
down-Covers zero t = ground arith
down-Covers (suc n) t = ground (arith, down-Covers n t)

abbrev pub device : Gpu
device = record {
  Float = ℕ;
  f_zero = 0;
  add = λ x y. x + y;
  mul = λ x y. x * y;
  blocks = down;
  loaders = λ by bx kb n. down n;
  writers = λ by bx n. down n;
  garbage = λ by bx r c. 99;
}

device-IsGpu : IsGpu device
device-IsGpu = record {
  all_blocks = down-Covers;
  all_loaders = λ by bx kb n. down-Covers n;
  all_writers = λ by bx n. down-Covers n;
  IsSum = λ x. Unit;
  zero-IsSum = tt;
  add-IsSum = λ x y h. tt;
  add_padding = λ x h. omega arith;
}

abbrev tile : TileCfg
tile = record { bm = 32; bn = 16; bk = 16 }

-- A 2 by 3 matrix and a 3 by 2 one.
abbrev pub left : ℕ → ℕ
left i = get_or (1 ∷ 2 ∷ 3 ∷ 4 ∷ 5 ∷ 6 ∷ []) i 0

abbrev pub right : ℕ → ℕ
right i = get_or (7 ∷ 8 ∷ 9 ∷ 10 ∷ 11 ∷ 12 ∷ []) i 0

reference_runs :
    (cpu_reference_gemm device left right 2 3 0 0 ≡ 58)
    × (cpu_reference_gemm device left right 2 3 1 1 ≡ 154)
unfolding cpu_reference_gemm
reference_runs = (refl, refl)

launch_matmul_lem_example :
    (c' : ℕ → ℕ) × (launch_matmul device tile left right 2 2 3 (λ i. 0) ≡ some c')
    × ((i j : ℕ) → i < 2 → j < 2 → c' (i * 2 + j) ≡ cpu_reference_gemm device left right 2 3 i j)
    × ((q : ℕ) → 4 ≤ q → c' q ≡ 0)
launch_matmul_lem_example =
    launch_matmul_lem device device-IsGpu tile left right 2 2 3 (λ i. 0) refl

launch_matmul_sycl_bf16_lem_example :
    (16 % 16 ≡ 0
      → 32 % 16 ≡ 0
      → (c' : ℕ → ℕ) × (launch_matmul_sycl_bf16 device ℕ (λ x. x) left right 16 32 3 (λ i. 0)
          ≡ some c')
        × ((i j : ℕ)
            → i < 16
            → j < 32
            → c' (i * 32 + j) ≡ cpu_reference_gemm device left right 32 3 i j)
        × ((q : ℕ) → 512 ≤ q → c' q ≡ 0))
    × (16 % 16 ≢ 0 ⊎ 32 % 16 ≢ 0
        → launch_matmul_sycl_bf16 device ℕ (λ x. x) left right 16 32 3 (λ i. 0) ≡ none)
launch_matmul_sycl_bf16_lem_example =
    launch_matmul_sycl_bf16_lem device ℕ (λ x. x) device-IsGpu left right 16 32 3 (λ i. 0)

-- A 2 by 2 product is refused by SYCL's range.
ragged_runs : launch_matmul_sycl_bf16 device ℕ (λ x. x) left right 2 2 3 (λ i. 0) ≡ none
unfolding launch_matmul_sycl_bf16 gemm_tiled_sycl
ragged_runs = refl
