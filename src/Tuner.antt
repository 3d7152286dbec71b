-- ===== src/Tuner.antt =====
-- `autotune_matmul` (kernels/matmul.cu) and `autotune_flash_attn` (kernels/flash_attn.cu): each
-- configuration is launched a few times to warm up, and then timed. Launches, the clock and the order
-- of times are parameters; a launch that throws leaves a state behind too.
pub mod Best
pub mod Kernels
use amp.Prelude.{
  ℕ, zero, suc, ◌+◌, ◌*◌, Bool, true, false, List, [], ◌∷◌, Option, none, some, if◌then◌else◌, leb,
}
use amp.Matmul.{TileCfg}
use amp.Flash.Dispatch.{shmem}

pub record Runs (Cfg : Type 0) : Type 1 where
  pub Time : Type 0
  pub State : Type 0
  pub lt : Time → Time → Bool
  pub t_1e18 : Time
  pub launch : Cfg → State → Bool × State
  pub sync : State → State
  pub now : State → Time × State
  pub per_rep : Time → Time → ℕ → Time

module _ {Cfg : Type 0} (d : Runs Cfg) where
  open d use {Time, State, lt, t_1e18, launch, sync, now, per_rep}

  -- `n` launches; the first that throws ends them.
  unfoldable pub launches : ℕ → Cfg → State → Bool × State
  launches zero c s = (true, s)
  launches (suc n) c s =
      let r = launch c s in let rest = launches n c r.1 in if r.0 then rest else r

  -- The configuration and the `ms` of the best so far.
  pub record Tuned : Type 0 where
    pub cfg : Cfg
    pub ms : Time

  -- The timed launches of a configuration that has warmed up; `none` is the exception of one of them.
  unfoldable pub timed : ℕ → Cfg → State → Option (Time × State)
  unfolding launches
  timed reps c s =
      let t0 = now (sync s) in
      let r = launches reps c t0.1 in
      let t1 = now (sync r.1) in if r.0 then some (per_rep t1.0 t0.0 reps, t1.1) else none

  -- `if (ms < best.ms) best = ...`
  abbrev pub better : Cfg → Time → Tuned → Tuned
  better c ms best = if lt ms best.ms then record { cfg = c; ms = ms } else best

  -- The loop over the configurations. One that does not pass `fits`, or that throws while it warms up,
  -- is passed over.
  unfoldable pub tune_loop :
      ℕ → ℕ → (Cfg → Bool) → List Cfg → Tuned → State → Option (Tuned × State)
  unfolding launches timed
  tune_loop warmup reps fits [] best s = some (best, s)
  tune_loop warmup reps fits (c ∷ cs) best s =
      let w = launches warmup c s in
      let over = tune_loop warmup reps fits cs best s in
      let failed = tune_loop warmup reps fits cs best w.1 in
      if fits c
      then (if w.0
          then elim (timed reps c w.1) [
            | none ↦ none
            | some r ↦ tune_loop warmup reps fits cs (better c r.0 best) r.1
          ]
          else failed)
      else over

-- The `space` of `autotune_matmul`.
abbrev pub matmul_space : List TileCfg
matmul_space =
    record { bm = 16; bn = 16; bk = 16 }
    ∷ record { bm = 32; bn = 16; bk = 16 }
    ∷ record { bm = 32; bn = 32; bk = 16 }
    ∷ record { bm = 32; bn = 32; bk = 32 }
    ∷ []

-- `autotune_matmul`, less the `gflops` it computes.
unfoldable pub autotune_matmul : (d : Runs TileCfg) → d.State → Option (Tuned d × d.State)
unfolding tune_loop
autotune_matmul d s =
    tune_loop d 3 20 (λ c. true) matmul_space
      (record { cfg = record { bm = 0; bn = 0; bk = 0 }; ms = d.t_1e18 }) s

-- `tile_options` of `autotune_flash_attn`, as `Br` and `Bc`.
abbrev pub flash_options : List (ℕ × ℕ)
flash_options = (32, 64) ∷ (32, 32) ∷ (16, 64) ∷ []

-- `autotune_flash_attn`, less the fields of the configuration that it fills from its arguments.
unfoldable pub autotune_flash_attn : (d : Runs (ℕ × ℕ)) → ℕ → d.State → Option (Tuned d × d.State)
unfolding tune_loop
autotune_flash_attn d head_dim s =
    tune_loop d 3 10 (λ c. leb (shmem c.0 c.1 head_dim) (80 * 1024)) flash_options
      (record { cfg = (32, 64); ms = d.t_1e18 }) s
