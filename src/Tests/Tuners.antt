-- ===== src/Tests/Tuners.antt =====
-- The autotuners of kernels/matmul.cu and kernels/flash_attn.cu on a clock that counts microseconds.
use amp.Prelude.{ℕ, ◌+◌, ◌-◌, ◌*◌, ◌/◌, ◌≡◌, refl, true, some, if◌then◌else◌, ltb, ◌==◌, arith}
use amp.Matmul.{TileCfg, is_compiled}
use amp.Tuner.{
  Runs, Tuned, autotune_matmul, autotune_flash_attn, matmul_space, tune_loop, launches, timed,
}
use amp.Tuner.Best.{IsBest}
use amp.Tuner.Kernels.{autotune_matmul_lem}

-- A launch takes a time that hangs on the configuration, and throws where it takes none.
abbrev runs : (Cfg : Type 0) → (Cfg → ℕ) → Runs Cfg
runs Cfg cost = record {
  Time = ℕ;
  State = ℕ;
  lt = ltb;
  t_1e18 = 1000000;
  launch = λ c s. (ltb 0 (cost c), s + cost c);
  sync = λ s. s;
  now = λ s. (s, s);
  per_rep = λ t1 t0 n. (t1 - t0) / n;
}

-- Tiles of 32 by 32 by 32 cannot be launched; the others take as long as they have rows and columns.
abbrev cost : TileCfg → ℕ
cost c = if c.bk == 32 then 0 else c.bm * c.bn

autotune_matmul_lem_example :
    let d = runs TileCfg cost in
    (r : Tuned d) × (s' : ℕ) × (autotune_matmul d 0 ≡ some (r, s'))
    × IsBest d
        (λ c. ltb 0 (cost c))
        (λ c s. refl)
        2
        20
        (λ c. true)
        (λ c. is_compiled c ≡ true)
        matmul_space
        (record { cfg = record { bm = 0; bn = 0; bk = 0 }; ms = 1000000 })
        0
        r
autotune_matmul_lem_example =
    autotune_matmul_lem (runs TileCfg cost) (λ c. ltb 0 (cost c)) (λ c s. refl)
      (λ x y z. λ xy yz. ground arith) (λ x. ground arith) 0

-- For head dimension 128 the tile of 32 by 64 is passed over, since it takes 88 KB.
flash_runs :
    (r : Tuned (runs (ℕ × ℕ) (λ c. c.0 + c.1))) × (s' : ℕ) × (autotune_flash_attn
        (runs (ℕ × ℕ) (λ c. c.0 + c.1))
        128
        0
      ≡ some (r, s'))
    × (r.cfg ≡ (32, 32))
    × (r.ms ≡ 64)
unfolding autotune_flash_attn tune_loop launches timed
flash_runs = (_, _, refl, refl, refl)
