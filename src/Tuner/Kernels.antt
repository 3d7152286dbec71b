-- ===== src/Tuner/Kernels.antt =====
-- What `autotune_matmul` (kernels/matmul.cu) and `autotune_flash_attn` (kernels/flash_attn.cu) return.
use amp.Prelude.{ℕ, ◌≤◌, ◌*◌, ◌≡◌, refl, Bool, true, false, some, leb, arith}
use amp.Matmul.{TileCfg, is_compiled}
use amp.Flash.Dispatch.{shmem}
use amp.Tuner.{Runs, Tuned, matmul_space, autotune_matmul, flash_options, autotune_flash_attn}
use amp.Tuner.Best.{IsBest, tune_loop-BestOf, BestOf-IsBest}

module _ (d : Runs TileCfg) (works : TileCfg → Bool)
    (same : (c : TileCfg) (s : d.State) → (d.launch c s).0 ≡ works c)
    (transitive : (x y z : d.Time) → d.lt x y ≡ true → d.lt y z ≡ true → d.lt x z ≡ true)
    (irreflexive : (x : d.Time) → d.lt x x ≡ false) where
  -- Where each tile always throws or never does, and times have a transitive and irreflexive order,
  -- `autotune_matmul` returns: the tile is one that is compiled in and does not throw, with its time,
  -- than which no measured tile is faster; or it is the tile of zeros with 1e18.
  pub autotune_matmul_lem :
      (s : d.State)
      → (r : Tuned d) × (s' : d.State) × (autotune_matmul d s ≡ some (r, s'))
        × IsBest d works same 2 20
            (λ c. true)
            (λ c. is_compiled c ≡ true)
            matmul_space
            (record { cfg = record { bm = 0; bn = 0; bk = 0 }; ms = d.t_1e18 })
            s
            r
  unfolding autotune_matmul
  autotune_matmul_lem s =
      let blank : Tuned d = record { cfg = record { bm = 0; bn = 0; bk = 0 }; ms = d.t_1e18 } in
      let (r, s', runs, g) =
        tune_loop-BestOf d works same 2 20 (λ c. true) transitive irreflexive matmul_space blank
          s in
      (
        r,
        s',
        runs,
        BestOf-IsBest d works same 2 20 (λ c. true) transitive irreflexive
            (λ c. is_compiled c ≡ true) matmul_space blank s r (refl, (refl, (refl, (refl, tt)))) g,
      )

module _ (d : Runs (ℕ × ℕ)) (works : ℕ × ℕ → Bool)
    (same : (c : ℕ × ℕ) (s : d.State) → (d.launch c s).0 ≡ works c)
    (transitive : (x y z : d.Time) → d.lt x y ≡ true → d.lt y z ≡ true → d.lt x z ≡ true)
    (irreflexive : (x : d.Time) → d.lt x x ≡ false) where
  -- The same of `autotune_flash_attn`: the rows of what it measures are at most 32, and its shared memory
  -- at most 80 KB; where nothing is measured it returns 32 and 64.
  pub autotune_flash_attn_lem :
      (head_dim : ℕ) (s : d.State)
      → (r : Tuned d) × (s' : d.State) × (autotune_flash_attn d head_dim s ≡ some (r, s'))
        × IsBest d works same 2 10
            (λ c. leb (shmem c.0 c.1 head_dim) (80 * 1024))
            (λ c. c.0 ≤ 32)
            flash_options
            (record { cfg = (32, 64); ms = d.t_1e18 })
            s
            r
  unfolding autotune_flash_attn
  autotune_flash_attn_lem head_dim s =
      let fits = λ (c : ℕ × ℕ). leb (shmem c.0 c.1 head_dim) (80 * 1024) in
      let first : Tuned d = record { cfg = (32, 64); ms = d.t_1e18 } in
      let (r, s', runs, g) =
        tune_loop-BestOf d works same 2 10 fits transitive irreflexive flash_options first s in
      (
        r,
        s',
        runs,
        BestOf-IsBest d works same 2 10 fits transitive irreflexive (λ c. c.0 ≤ 32) flash_options
            first s r (omega arith, (omega arith, (omega arith, tt))) g,
      )
