-- ===== src/Flash/Launch.antt =====
-- The output of `flash_attn_fwd_kernel` (kernels/flash_attn.cu), its launch, and the public launcher. A
-- device array is a function of the index; the warps of a block write one after the other, and the
-- blocks of a grid run one after the other, in orders that the device chooses.
use amp.Prelude.{
  ℕ, zero, suc, ◌+◌, ◌-◌, ◌*◌, ◌/◌, ◌%◌, Bool, Option, none, some, if◌then◌else◌, ltb, leb, ◌==◌,
  ◌&&◌, ◌||◌,
}
use Prim.Native.String.{String}
use amp.Matmul.{Gpu, in_order}
use amp.Flash.{FlashOps, Block, q_row, flash_attn_fwd_kernel}
use amp.Flash.Dispatch.{Tiles, select}

module _ (gpu : Gpu) (ops : FlashOps gpu) where
  open gpu use {Float, f_zero, add, blocks, writers}
  open ops use {f_one, tiny, lt, div, log, sqrt, of_int, Bf16, to_bf16}

  -- `struct AttnCfg`
  pub record AttnCfg : Type 0 where
    pub num_q_heads : ℕ
    pub num_kv_heads : ℕ
    pub head_dim : ℕ
    pub causal : Bool
    pub scale : Float
    pub br : ℕ
    pub bc : ℕ

  -- The arrays `O` and `lse`.
  pub record Out : Type 0 where
    pub o : ℕ → Bf16
    pub lse : ℕ → Float

  -- `for (d = from; n turns; ++d) optr[start + d] = AMP_FLOAT_TO_BF16(o_i[d])`
  unfoldable pub write_loop : ℕ → (ℕ → Float) → ℕ → ℕ → (ℕ → Bf16) → ℕ → Bf16
  write_loop start o_i zero d o = o
  write_loop start o_i (suc n) d o =
      write_loop start o_i n (d + 1) (λ i. if start + d == i then to_bf16 (o_i d) else o i)

  -- What a launch is given besides the tiles: the scale that is used, and the tensors.
  module _ (cfg : AttnCfg) (t : Tiles) (s_q s_kv : ℕ) (scale : Float) (q k v : ℕ → Bf16) where
    -- `b * stride_B + h * stride_H`
    abbrev pub q_base : ℕ → ℕ
    q_base bh =
        bh / cfg.num_q_heads * (cfg.num_q_heads * s_q * cfg.head_dim)
        + bh % cfg.num_q_heads * (s_q * cfg.head_dim)

    -- With more heads of keys than of queries a group has none, and the source divides by 0; the place
    -- given here stands for no behaviour of it.
    abbrev pub kv_base : ℕ → ℕ
    kv_base bh =
        bh / cfg.num_q_heads * (cfg.num_kv_heads * s_kv * cfg.head_dim)
        + bh % cfg.num_q_heads / (cfg.num_q_heads / cfg.num_kv_heads) * (s_kv * cfg.head_dim)

    -- The block `(q_tile, bh)`. Its head dimension is that of the template, which is the stride of a row.
    abbrev pub block_at : ℕ → ℕ → Block gpu ops
    block_at q_tile bh = record {
      br = t.br;
      bc = t.bc;
      head_dim = t.head_dim;
      s_q = s_q;
      s_kv = s_kv;
      scale = scale;
      causal = cfg.causal;
      q_tile = q_tile;
      bh = bh;
      q = λ i. q (q_base bh + i);
      k = λ i. k (kv_base bh + i);
      v = λ i. v (kv_base bh + i);
    }

    -- `Write output`, by the warp `row`.
    unfoldable pub write_row : ℕ → ℕ → ℕ → Out → Out
    unfolding flash_attn_fwd_kernel write_loop
    write_row q_tile bh row out =
        let b = block_at q_tile bh in
        let r = flash_attn_fwd_kernel gpu ops b row in
        let at_ = q_row gpu ops b row in
        if ltb at_ s_q
        then record {
          o = write_loop (q_base bh + at_ * cfg.head_dim) r.o t.head_dim 0 out.o;
          lse = λ i.
              if (bh / cfg.num_q_heads * cfg.num_q_heads + bh % cfg.num_q_heads) * s_q + at_ == i
              then add r.m (log (if lt f_zero r.l then r.l else tiny))
              else out.lse i;
        }
        else out

    -- The grid `(Tr, B * H_q)`.
    unfoldable pub launch_fa : ℕ → Out → Out
    unfolding write_row in_order
    launch_fa batch out =
        let tr = (s_q + t.br - 1) / t.br in
        in_order (λ i. in_order (write_row (i % tr) (i / tr)) (writers (i % tr) (i / tr) t.br))
          (blocks (batch * cfg.num_q_heads * tr)) out

  -- `cfg.scale`, where it is positive.
  abbrev pub used_scale : AttnCfg → Float
  used_scale cfg = if lt f_zero cfg.scale then cfg.scale else div f_one (sqrt (of_int cfg.head_dim))

  -- LAUNCH_FA for the template that was selected, on a device that accepts a launch of so many row
  -- tiles and heads or not; `none` is an exception.
  abbrev pub launch_selected :
      (Tiles → ℕ → ℕ → Bool)
      → (ℕ → Bf16)
      → (ℕ → Bf16)
      → (ℕ → Bf16)
      → Out
      → ℕ
      → ℕ
      → ℕ
      → AttnCfg
      → Option Tiles
      → Option Out
  launch_selected accepts q k v out batch s_q s_kv cfg none = none
  launch_selected accepts q k v out batch s_q s_kv cfg (some t) =
      if accepts t ((s_q + t.br - 1) / t.br) (batch * cfg.num_q_heads)
      then some (launch_fa cfg t s_q s_kv (used_scale cfg) q k v batch out)
      else none

  -- `dispatch_flash_attn`, on a device with `max_smem` bytes of shared memory.
  unfoldable pub dispatch_flash_attn :
      ℕ
      → (Tiles → ℕ → ℕ → Bool)
      → (ℕ → Bf16)
      → (ℕ → Bf16)
      → (ℕ → Bf16)
      → Out
      → ℕ
      → ℕ
      → ℕ
      → AttnCfg
      → Option Out
  unfolding select launch_fa
  dispatch_flash_attn max_smem accepts q k v out batch s_q s_kv cfg =
      launch_selected accepts q k v out batch s_q s_kv cfg
        (select max_smem cfg.br cfg.bc cfg.head_dim)

  -- `launch_flash_attn_bf16`
  unfoldable pub launch_flash_attn_bf16 :
      ℕ
      → (Tiles → ℕ → ℕ → Bool)
      → (ℕ → Bf16)
      → (ℕ → Bf16)
      → (ℕ → Bf16)
      → Out
      → ℕ
      → ℕ
      → ℕ
      → AttnCfg
      → Option Out
  unfolding dispatch_flash_attn
  launch_flash_attn_bf16 max_smem accepts q k v out batch s_q s_kv cfg =
      dispatch_flash_attn max_smem accepts q k v out batch s_q s_kv cfg

  -- `launch_flash_attn_fp16`: the same bits, read as the other type and back.
  unfoldable pub launch_flash_attn_fp16 :
      (Fp16 : Type 0)
      → (Fp16 → Bf16)
      → (Bf16 → Fp16)
      → ℕ
      → (Tiles → ℕ → ℕ → Bool)
      → (ℕ → Fp16)
      → (ℕ → Fp16)
      → (ℕ → Fp16)
      → (ℕ → Fp16)
      → (ℕ → Float)
      → ℕ
      → ℕ
      → ℕ
      → AttnCfg
      → Option ((ℕ → Fp16) × (ℕ → Float))
  unfolding dispatch_flash_attn
  launch_flash_attn_fp16 Fp16 as_bf16 as_fp16 max_smem accepts q k v o lse batch s_q s_kv cfg =
      elim (dispatch_flash_attn max_smem accepts (λ i. as_bf16 (q i)) (λ i. as_bf16 (k i))
        (λ i. as_bf16 (v i)) (record { o = λ i. as_bf16 (o i); lse = lse }) batch s_q s_kv cfg) [
          | none ↦ none
          | some out ↦ some ((λ i. as_fp16 (out.o i)), out.lse)
        ]

-- `has_flash_attn_support` for CUDA, from `cudaDeviceProp`, and for HIP, where `finds` tells whether
-- `gcnArchName` contains a name.
abbrev pub has_flash_attn_support_cuda : ℕ → ℕ → Bool
has_flash_attn_support_cuda major shared_mem = leb 8 major && leb (80 * 1024) shared_mem

abbrev pub has_flash_attn_support_hip : (String → Bool) → Bool
has_flash_attn_support_hip finds =
    finds "gfx90a" || finds "gfx940" || finds "gfx941" || finds "gfx942"
