-- ===== src/Tests/Flashes.antt =====
-- kernels/flash_attn.cu over truth values with `or` for the sum, on a device that counts down.
use amp.Prelude.{
  ℕ, ◌%◌, if◌then◌else◌, ◌*◌, ◌≤◌, ◌<◌, ◌≡◌, refl, Bool, true, false, some, none, ◌||◌, ◌&&◌, ltb,
  arith,
}
use amp.Matmul.{Gpu, sum_loop}
use amp.Tests.Matmuls.{down, down-Covers}
use amp.Flash.{FlashOps, Block, load_kv}
use amp.Flash.Exact.{IsExact}
use amp.Flash.Partial.{load_kv_partial}
use amp.Flash.Dispatch.{Tiles, shmem, is_compiled, select, select_lem}
use amp.Flash.Launch.{AttnCfg, Out, launch_flash_attn_bf16}
use amp.Flash.Attention.{
  IsSoftmax, attn_score, attn_value, attn_keys, entry, launch_flash_attn_bf16_lem,
}

abbrev gpu : Gpu
gpu = record {
  Float = Bool;
  f_zero = false;
  add = λ x y. x || y;
  mul = λ x y. x && y;
  blocks = down;
  loaders = λ by bx kb n. down n;
  writers = λ by bx n. down n;
  garbage = λ by bx r c. true;
}

abbrev ops : FlashOps gpu
ops = record {
  f_one = true;
  neg_big = false;
  tiny = true;
  lt = λ x y. if x then false else y;
  sub = λ x y. x;
  div = λ y x. y;
  fmax = λ x y. x || y;
  exp = λ x. x;
  log = λ x. x;
  sqrt = λ x. x;
  of_int = λ n. ltb 0 n;
  Bf16 = Bool;
  to_float = λ x. x;
  to_bf16 = λ x. x;
}

abbrev exact : IsExact gpu ops
exact = record {
  add_assoc = λ x y z. ground arith;
  add_zero = λ x. ground arith;
  zero_add = λ x. refl;
  mul_assoc = λ x y z. ground arith;
  mul_comm = λ x y. ground arith;
  one_mul = λ x. refl;
  mul_zero = λ x. ground arith;
  mul_add = λ x y z. ground arith;
  mul_div = λ x y h. ground arith;
  IsScore = λ x. x ≡ true;
  fmax_left = λ x y hx hy. ground arith;
  fmax_right = λ x y hx hy. ground arith;
  exp_add = λ x y z hx hy hz. ground arith;
  exp_masked = λ x h. refl;
  exp_positive = λ x y hx hy. hx;
  NonNeg = λ x. Unit;
  NonNeg-zero = tt;
  NonNeg-positive = λ x h. tt;
  positive-add = λ x y h n. ground arith;
}

abbrev cfg : AttnCfg gpu ops
cfg = record {
  num_q_heads = 2;
  num_kv_heads = 1;
  head_dim = 64;
  causal = true;
  scale = true;
  br = 32;
  bc = 64;
}

abbrev start : Out gpu ops
start = record { o = λ i. false; lse = λ i. false }

-- A value is true at the first key only.
abbrev values : ℕ → Bool
values i = ltb i 64

abbrev ones : ℕ → Bool
ones i = true

all_scores : (bh i j : ℕ) → attn_score gpu ops exact cfg 32 40 ones ones values bh i j ≡ true
unfolding sum_loop
all_scores bh i j = refl

launch_flash_attn_bf16_lem_example :
    (out' : Out gpu ops) × (launch_flash_attn_bf16 gpu ops 65536
        (λ t tr heads. true)
        ones
        ones
        values
        start
        3
        32
        40
        cfg
      ≡ some out')
    × ((bh i d : ℕ) (c : Bool)
        → bh < 6
        → i < 32
        → d < 64
        → c ≡ true
        → (x : Bool) × (out'.o (entry gpu ops exact cfg 32 40 ones ones values 32 bh i d) ≡ x)
          × IsSoftmax gpu ops exact
              (attn_score gpu ops exact cfg 32 40 ones ones values bh i)
              (attn_value gpu ops exact cfg 32 40 ones ones values bh d)
              (attn_keys gpu ops exact cfg 32 40 ones ones values i)
              c
              x)
launch_flash_attn_bf16_lem_example =
    launch_flash_attn_bf16_lem gpu ops exact cfg 32 40 ones ones values down-Covers
      (λ by bx kb. down-Covers) (λ by bx. down-Covers) 65536 (λ t tr heads. true) 3 start refl refl
      refl (omega arith) all_scores

-- One query, as in decoding: 31 of the 32 warps return before the loads.
abbrev decode_block : Block gpu ops
decode_block = record {
  br = 32;
  bc = 64;
  head_dim = 128;
  s_q = 1;
  s_kv = 64;
  scale = true;
  causal = false;
  q_tile = 0;
  bh = 0;
  q = ones;
  k = values;
  v = ones;
}

load_kv_partial_example : load_kv gpu ops decode_block values 0 (λ j d. true) 0 40 ≡ true
load_kv_partial_example =
    load_kv_partial gpu ops decode_block values 0 1 0 40 (λ j d. true) (omega arith) (omega arith)
      (omega arith) (omega arith)

select_lem_example :
    ((t : Tiles)
      → select 65536 64 64 128 ≡ some t
      → (t.head_dim ≡ 128)
        × (t.br * 32 ≤ 1024)
        × (shmem t.br t.bc t.head_dim ≤ 65536)
        × (t.bc % t.br ≡ 0)
        × (0 < t.br)
        × (0 < t.bc)
        × (0 < t.head_dim))
    × (select 65536 64 64 128 ≡ none → is_compiled 32 64 128 ≡ false)
select_lem_example = select_lem 65536 64 64 128 (omega arith)

-- On 64 KB, keys of 64 by 128 are cut to 32, and a head dimension of 96 is refused.
select_runs :
    (select 65536 64 64 128 ≡ some (record { br = 32; bc = 32; head_dim = 128 }))
    × (select 65536 32 64 64 ≡ some (record { br = 32; bc = 64; head_dim = 64 }))
    × (select 65536 32 64 96 ≡ none)
unfolding select
select_runs = (refl, refl, refl)
