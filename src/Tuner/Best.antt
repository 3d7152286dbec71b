-- ===== src/Tuner/Best.antt =====
-- What the loop of the autotuners of kernels/matmul.cu and kernels/flash_attn.cu returns.
use amp.Prelude.{
  ℕ, zero, suc, ◌≡◌, refl, sym, ap, ◌∙◌, subst, Bool, true, false, List, [], ◌∷◌, Option, none,
  some, if◌then◌else◌, ◌⊎◌, inl, inr, Bool-cases, All,
}
use amp.Tuner.{Runs, Tuned, launches, timed, better, tune_loop}

module _ {Cfg : Type 0} (d : Runs Cfg) (works : Cfg → Bool)
    (same : (c : Cfg) (s : d.State) → (d.launch c s).0 ≡ works c) where
  launches_fine : (n : ℕ) (c : Cfg) (s : d.State) → works c ≡ true → (launches d n c s).0 ≡ true
  unfolding launches
  launches_fine zero c s fine = refl
  launches_fine (suc n) c s fine =
      let r = d.launch c s in
      ap (λ t. (if t then launches d n c r.1 else r).0) (same c s ∙ fine)
      ∙ launches_fine n c r.1 fine

  launches_fail :
      (n : ℕ) (c : Cfg) (s : d.State) → works c ≡ false → (launches d (suc n) c s).0 ≡ false
  unfolding launches
  launches_fail n c s bad =
      let r = d.launch c s in
      ap (λ t. (if t then launches d n c r.1 else r).0) (same c s ∙ bad) ∙ same c s ∙ bad

  -- The time of a configuration, and the state after it.
  abbrev pub timing : ℕ → Cfg → d.State → d.Time × d.State
  timing reps c s =
      let t0 = d.now (d.sync s) in
      let r = launches d reps c t0.1 in
      let t1 = d.now (d.sync r.1) in (d.per_rep t1.0 t0.0 reps, t1.1)

  timed_fine :
      (reps : ℕ) (c : Cfg) (s : d.State)
      → works c ≡ true
      → timed d reps c s ≡ some (timing reps c s)
  unfolding timed
  timed_fine reps c s fine =
      ap (λ t. if t then some (timing reps c s) else none)
        (launches_fine reps c (d.now (d.sync s)).1 fine)

  module _ (warmup reps : ℕ) (fits : Cfg → Bool) where
    -- The measurements: of the configurations that pass `fits` and work, in order.
    abbrev pub tune_trace : List Cfg → d.State → List (Cfg × d.Time)
    tune_trace [] s = []
    tune_trace (c ∷ cs) s =
        let w = (launches d (suc warmup) c s).1 in
        let m = timing reps c w in
        let kept = (c, m.0) ∷ tune_trace cs m.1 in
        let failed = tune_trace cs w in
        let over = tune_trace cs s in if fits c then (if works c then kept else failed) else over

    abbrev pub Measured : Cfg → d.Time → List (Cfg × d.Time) → Type 0
    Measured c t [] = ⊥
    Measured c t ((e, u) ∷ ms) = ((c ≡ e) × (t ≡ u)) ⊎ Measured c t ms

    module _ (transitive : (x y z : d.Time) → d.lt x y ≡ true → d.lt y z ≡ true → d.lt x z ≡ true)
        (irreflexive : (x : d.Time) → d.lt x x ≡ false) where
      not_under : (x y z : d.Time) → d.lt y z ≡ true → d.lt x z ≡ false → d.lt x y ≡ false
      not_under x y z below h = elim (Bool-cases (d.lt x y)) [
        | inl less ↦ absurd (let e = transitive x y z less below in cc)
        | inr e ↦ e
      ]

      -- `r` is the best of `best` and the measurements.
      pub record BestOf (best r : Tuned d) (ms : List (Cfg × d.Time)) : Type 0 where
        pub lowest : All (λ m. d.lt m.1 r.ms ≡ false) ms
        pub below : (x : d.Time) → d.lt x best.ms ≡ false → d.lt x r.ms ≡ false
        pub found : ((r.cfg ≡ best.cfg) × (r.ms ≡ best.ms)) ⊎ Measured r.cfg r.ms ms

      better-BestOf :
          (c : Cfg) (t : d.Time) (best r : Tuned d) (ms : List (Cfg × d.Time))
          → BestOf (better d c t best) r ms
          → BestOf best r ((c, t) ∷ ms)
      better-BestOf c t best r ms g = elim (Bool-cases (d.lt t best.ms)) [
        | inl less ↦
            let is_new : better d c t best ≡ record { cfg = c; ms = t } =
              ap (λ x. if x then record { cfg = c; ms = t } else best) less in
            let g' = subst (λ x. BestOf x r ms) is_new g in
            record {
              lowest = (g'.below t (irreflexive t), g'.lowest);
              below = λ x h. g'.below x (not_under x t best.ms less h);
              found = inr (elim g'.found [ inl e ↦ inl e | inr later ↦ inr later ]);
            }
        | inr more ↦
            let is_old : better d c t best ≡ best =
              ap (λ x. if x then record { cfg = c; ms = t } else best) more in
            let g' = subst (λ x. BestOf x r ms) is_old g in
            record {
              lowest = (g'.below t more, g'.lowest);
              below = g'.below;
              found = elim g'.found [ inl e ↦ inl e | inr later ↦ inr (inr later) ];
            }
      ]

      pub tune_loop-BestOf :
          (cs : List Cfg) (best : Tuned d) (s : d.State)
          → (r : Tuned d) × (s' : d.State) × (tune_loop d (suc warmup) reps fits cs best s
              ≡ some (r, s'))
            × BestOf best r (tune_trace cs s)
      unfolding tune_loop
      tune_loop-BestOf [] best s =
          (best, s, refl, record { lowest = tt; below = λ x h. h; found = inl (refl, refl) })
      tune_loop-BestOf (c ∷ cs) best s =
          let w = launches d (suc warmup) c s in
          let m = timing reps c w.1 in
          let kept = (c, m.0) ∷ tune_trace cs m.1 in
          let failed = tune_trace cs w.1 in
          let over = tune_trace cs s in
          let go_on = λ (t : Option (d.Time × d.State)).
            elim t as (λ x. Option (Tuned d × d.State)) [
              | none ↦ none
              | some r ↦ tune_loop d (suc warmup) reps fits cs (better d c r.0 best) r.1
            ] in
          let on_failed = tune_loop d (suc warmup) reps fits cs best w.1 in
          let on_over = tune_loop d (suc warmup) reps fits cs best s in
          let result = λ (x y : Bool) (t : Option (d.Time × d.State)).
            if x then (if y then go_on t else on_failed) else on_over in
          let trace = λ (x y : Bool). if x then (if y then kept else failed) else over in
          elim (Bool-cases (fits c)) [
            | inr misfit ↦
                let (r, s', runs, g) = tune_loop-BestOf cs best s in
                (
                  r,
                  s',
                  ap (λ x. result x w.0 (timed d reps c w.1)) misfit ∙ runs,
                  subst (BestOf best r) (sym (ap (λ x. trace x (works c)) misfit)) g,
                )
            | inl fit ↦ elim (Bool-cases (works c)) [
              | inr bad ↦
                  let (r, s', runs, g) = tune_loop-BestOf cs best w.1 in
                  (
                    r,
                    s',
                    ap (λ x. result x w.0 (timed d reps c w.1)) fit
                        ∙ ap (λ y. result true y (timed d reps c w.1))
                            (launches_fail warmup c s bad)
                        ∙ runs,
                    subst (BestOf best r)
                        (sym (ap (λ x. trace x (works c)) fit ∙ ap (trace true) bad)) g,
                  )
              | inl fine ↦
                  let (r, s', runs, g) = tune_loop-BestOf cs (better d c m.0 best) m.1 in
                  (
                    r,
                    s',
                    ap (λ x. result x w.0 (timed d reps c w.1)) fit
                        ∙ ap (λ y. result true y (timed d reps c w.1))
                            (launches_fine (suc warmup) c s fine)
                        ∙ ap go_on (timed_fine reps c w.1 fine)
                        ∙ runs,
                    subst (BestOf best r)
                        (sym (ap (λ x. trace x (works c)) fit ∙ ap (trace true) fine))
                        (better-BestOf c m.0 best r (tune_trace cs m.1) g),
                  )
            ]
          ]

    Measured-fits :
        (P : Cfg → Type 0) (cs : List Cfg) (s : d.State) (c : Cfg) (t : d.Time)
        → All P cs
        → Measured c t (tune_trace cs s)
        → P c × (fits c ≡ true) × (works c ≡ true)
    Measured-fits P [] s c t all m = elim m [ ]
    Measured-fits P (e ∷ cs) s c t (here, all) m =
        let w = (launches d (suc warmup) e s).1 in
        let time = timing reps e w in
        let trace = λ (x y : Bool).
          if x
          then (if y then (e, time.0) ∷ tune_trace cs time.1 else tune_trace cs w)
          else tune_trace cs s in
        elim (Bool-cases (fits e)) [
          | inr misfit ↦
              Measured-fits P cs s c t all
                (subst (Measured c t) (ap (λ x. trace x (works e)) misfit) m)
          | inl fit ↦
              let fitted = subst (Measured c t) (ap (λ x. trace x (works e)) fit) m in
              elim (Bool-cases (works e)) [
                | inr bad ↦
                    Measured-fits P cs w c t all (subst (Measured c t) (ap (trace true) bad) fitted)
                | inl fine ↦ elim (subst (Measured c t) (ap (trace true) fine) fitted) [
                  | inl (is_e, _) ↦
                      (subst P (sym is_e) here, ap fits is_e ∙ fit, ap works is_e ∙ fine)
                  | inr later ↦ Measured-fits P cs time.1 c t all later
                ]
              ]
        ]

    -- `cfg` and `ms` of a search over `cs` that began with `best`: no measurement is below, and they are
    -- those of a measured configuration, or what the search began with.
    abbrev pub IsBest : (Cfg → Type 0) → List Cfg → Tuned d → d.State → Tuned d → Type 0
    IsBest P cs best s r =
        All (λ m. d.lt m.1 r.ms ≡ false) (tune_trace cs s)
        × (((r.cfg ≡ best.cfg) × (r.ms ≡ best.ms))
            ⊎ (Measured r.cfg r.ms (tune_trace cs s)
                × P r.cfg
                × (fits r.cfg ≡ true)
                × (works r.cfg ≡ true)))

    pub BestOf-IsBest :
        (transitive : (x y z : d.Time) → d.lt x y ≡ true → d.lt y z ≡ true → d.lt x z ≡ true)
        (irreflexive : (x : d.Time) → d.lt x x ≡ false) (P : Cfg → Type 0) (cs : List Cfg)
        (best : Tuned d) (s : d.State) (r : Tuned d)
        → All P cs
        → BestOf transitive irreflexive best r (tune_trace cs s)
        → IsBest P cs best s r
    BestOf-IsBest transitive irreflexive P cs best s r all g = (
      g.lowest,
      elim g.found [
        | inl began ↦ inl began
        | inr m ↦
            (let (p, fit, fine) = Measured-fits P cs s r.cfg r.ms all m in inr (m, p, fit, fine))
      ],
    )
