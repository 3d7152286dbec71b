-- ===== src/Flash/Dispatch.antt =====
-- `dispatch_flash_attn` and the launchers of kernels/flash_attn.cu, with the output of the kernel, and
-- the choice of the template.
use amp.Prelude.{
  ℕ, ◌+◌, ◌*◌, ◌%◌, ◌≤◌, ◌<◌, ◌≡◌, refl, sym, ap, ◌∙◌, Bool, true, false, Option, none, some,
  if◌then◌else◌, ltb, ◌==◌, ◌&&◌, ◌||◌, min, arith, ◌⊎◌, inl, inr, Bool-cases,
}

-- What a launch is instantiated with.
pub record Tiles : Type 0 where
  pub br : ℕ
  pub bc : ℕ
  pub head_dim : ℕ

-- `SHMEM`
abbrev pub shmem : ℕ → ℕ → ℕ → ℕ
shmem br bc dim = (br * dim + 2 * bc * dim + br * bc) * 4

abbrev pub is_compiled : ℕ → ℕ → ℕ → Bool
is_compiled br bc dim =
    (br == 32 && (bc == 64 || bc == 32) && (dim == 128 || dim == 64))
    || (br == 16 && (bc == 64 || bc == 32) && dim == 128)

-- `Bc` after the test on `max_smem`.
abbrev pub choose_bc : ℕ → ℕ → ℕ → ℕ → ℕ
choose_bc max_smem br bc dim = if bc == 64 && ltb max_smem (shmem br bc dim) then 32 else bc

-- `Br` and `Bc` as they are compared with the compiled tiles, and the head dimension.
abbrev pub chosen : ℕ → ℕ → ℕ → ℕ → Tiles
chosen max_smem cfg_br cfg_bc dim = record {
  br = min cfg_br 32;
  bc = choose_bc max_smem (min cfg_br 32) cfg_bc dim;
  head_dim = dim;
}

-- The choice of `dispatch_flash_attn`; `none` is the exception of a tile that is not compiled in. For a
-- Br of 0 it is `none` too, where the source divides by Br before.
unfoldable pub select : ℕ → ℕ → ℕ → ℕ → Option Tiles
select max_smem cfg_br cfg_bc dim =
    let t = chosen max_smem cfg_br cfg_bc dim in
    if is_compiled t.br t.bc t.head_dim then some t else none

pub select-chosen :
    (max_smem cfg_br cfg_bc dim : ℕ)
    → let t = chosen max_smem cfg_br cfg_bc dim in
      is_compiled t.br t.bc t.head_dim ≡ true → select max_smem cfg_br cfg_bc dim ≡ some t
unfolding select
select-chosen max_smem cfg_br cfg_bc dim compiled =
    ap (λ b. if b then some (chosen max_smem cfg_br cfg_bc dim) else none) compiled

-- What a compiled tile is.
abbrev pub IsTile : ℕ → ℕ → ℕ → Type 0
IsTile br bc dim =
    ((br ≡ 32) × (bc ≡ 64) × (dim ≡ 128))
    ⊎ ((br ≡ 32) × (bc ≡ 32) × (dim ≡ 128))
    ⊎ ((br ≡ 32) × (bc ≡ 64) × (dim ≡ 64))
    ⊎ ((br ≡ 32) × (bc ≡ 32) × (dim ≡ 64))
    ⊎ ((br ≡ 16) × (bc ≡ 64) × (dim ≡ 128))
    ⊎ ((br ≡ 16) × (bc ≡ 32) × (dim ≡ 128))

pub is_compiled-IsTile : (br bc dim : ℕ) → is_compiled br bc dim ≡ true → IsTile br bc dim
is_compiled-IsTile br bc dim h = ground arith

choose_bc-cases :
    (max_smem br bc dim : ℕ)
    → (choose_bc max_smem br bc dim ≡ 32) × (bc ≡ 64)
      ⊎ ((choose_bc max_smem br bc dim ≡ bc) × (bc ≡ 64 → shmem br bc dim ≤ max_smem))
choose_bc-cases max_smem br bc dim =
    elim (Bool-cases (bc == 64 && ltb max_smem (shmem br bc dim))) [
      | inl large ↦ inl (ap (λ b. if b then 32 else bc) large, ground arith)
      | inr small ↦ inr (ap (λ b. if b then 32 else bc) small, λ is_. ground arith)
    ]

-- A tile that is compiled in needs at most 52 KB, but for those of 64 by 128.
IsTile-Fits :
    (max_smem br bc dim : ℕ)
    → 53248 ≤ max_smem
    → IsTile br bc dim
    → (bc ≡ 64 → shmem br bc dim ≤ max_smem)
    → (br * 32 ≤ 1024)
      × (shmem br bc dim ≤ max_smem)
      × (bc % br ≡ 0)
      × (0 < br)
      × (0 < bc)
      × (0 < dim)
IsTile-Fits max_smem br bc dim enough tile wide = elim tile [
  | inl (rows, keys, cols) ↦ ground (arith, wide keys)
  | inr (inl (rows, keys, cols)) ↦ ground arith
  | inr (inr (inl (rows, keys, cols))) ↦ ground arith
  | inr (inr (inr (inl (rows, keys, cols)))) ↦ ground arith
  | inr (inr (inr (inr (inl (rows, keys, cols))))) ↦ ground (arith, wide keys)
  | inr (inr (inr (inr (inr (rows, keys, cols))))) ↦ ground arith
]

is_compiled-narrow : (br dim : ℕ) → is_compiled br 32 dim ≡ is_compiled br 64 dim
is_compiled-narrow br dim = refl

-- What is selected fits a block of 1024 threads and, on a device with 52 KB, its shared memory; the
-- rows of a block divide the tiles of K and V, and the head dimension is the one that was asked for.
-- Nothing is selected only where the rows, tile or dimension are not compiled in: a request for
-- tiles of 64 that does not fit is served with 32.
pub select_lem :
    (max_smem cfg_br cfg_bc dim : ℕ)
    → 53248 ≤ max_smem
    → ((t : Tiles)
        → select max_smem cfg_br cfg_bc dim ≡ some t
        → (t.head_dim ≡ dim)
          × (t.br * 32 ≤ 1024)
          × (shmem t.br t.bc t.head_dim ≤ max_smem)
          × (t.bc % t.br ≡ 0)
          × (0 < t.br)
          × (0 < t.bc)
          × (0 < t.head_dim))
      × (select max_smem cfg_br cfg_bc dim ≡ none → is_compiled (min cfg_br 32) cfg_bc dim ≡ false)
unfolding select
select_lem max_smem cfg_br cfg_bc dim enough =
    let br = min cfg_br 32 in
    let bc = choose_bc max_smem br cfg_bc dim in
    let tiles = chosen max_smem cfg_br cfg_bc dim in
    let picked : Bool → Option Tiles = λ b. if b then some tiles else none in
    elim (Bool-cases (is_compiled br bc dim)) [
      | inl ok ↦
          let wide_fits : bc ≡ 64 → shmem br bc dim ≤ max_smem = λ wide.
            elim (choose_bc-cases max_smem br cfg_bc dim) [
              | inl (narrow, _) ↦ absurd (ground (arith, narrow, wide))
              | inr (kept, fits) ↦
                  ground (arith, sym (ap (λ x. shmem br x dim) kept), fits (sym kept ∙ wide))
            ] in
          let fits =
            IsTile-Fits max_smem br bc dim enough (is_compiled-IsTile br bc dim ok) wide_fits in
          (
            λ t found.
                (let (threads, memory, whole, rows, keys, cols) = fits in
                  let same : tiles ≡ t = cc (sym (ap picked ok) ∙ found) in
                  rw (sym same) (refl, threads, memory, whole, rows, keys, cols)),
            λ refused. absurd (cc (sym (ap picked ok) ∙ refused)),
          )
      | inr not_ ↦ (
        λ t found. absurd (cc (sym (ap picked not_) ∙ found)),
        λ refused. elim (choose_bc-cases max_smem br cfg_bc dim) [
          | inl (narrow, asked) ↦
              ap (λ x. is_compiled br x dim) asked
              ∙ sym (is_compiled-narrow br dim)
              ∙ sym (ap (λ x. is_compiled br x dim) narrow)
              ∙ not_
          | inr (kept, fits) ↦ sym (ap (λ x. is_compiled br x dim) kept) ∙ not_
        ],
      )
    ]
