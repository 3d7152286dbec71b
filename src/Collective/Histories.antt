-- ===== src/Collective/Histories.antt =====
-- Whole histories of the calls that make and destroy groups (src/collective.cpp): none of them deletes a
-- communicator twice, and which of them leave one behind.
use amp.Prelude.{
  ℕ, zero, suc, ◌+◌, max, ◌≤◌, ◌<◌, ◌≡◌, ◌≢◌, refl, sym, ap, ◌∙◌, subst, Bool, true, false, List,
  [], ◌∷◌, Option, none, some, if◌then◌else◌, ◌==◌, arith, ◌⊎◌, inl, inr, Bool-cases,
}
use amp.Collective.{
  resize, CommGroup, Process, default_group, comm_init_rank, init_loop, comm_init_all,
  destroy_handle, comm_destroy, Call, init_rank, init_all, destroy, step, run,
}
use amp.Collective.Lifecycle.{
  Inv, Owned, live_new, set_group-cases, resize-cases, comm_init_rank-Inv, comm_init_all-Inv,
  destroyed, destroyed-Inv,
}

-- A process that has made no call yet.
abbrev pub start : Process
start = record { groups = λ i. default_group; live = λ h. false; next = 0 }

comm_destroy-cases :
    (ok : Bool) (i : ℕ) (s : Process)
    → Inv s
    → (comm_destroy ok i s ≡ some s)
      ⊎ ((h : ℕ) × ((s.groups i).initialized ≡ true)
          × ((s.groups i).handle ≡ some h)
          × (comm_destroy ok i s ≡ some (destroyed i h s)))
unfolding comm_destroy
comm_destroy-cases ok i s v = elim (Bool-cases (s.groups i).initialized) [
  | inr down ↦ inl (ap (λ t. if t then destroy_handle ok i (s.groups i).handle s else some s) down)
  | inl up ↦
      let (h, is_h, lives) = v.held i up in
      let under_guard =
        ap (λ t. if t then destroy_handle ok i (s.groups i).handle s else some s) up
        ∙ ap (λ r. destroy_handle ok i r s) is_h in
      let found : destroy_handle ok i (some h) s ≡ (if ok then some (destroyed i h s) else some s) =
        ap
          (λ t.
            if t
            then (if ok then (if t then some (destroyed i h s) else none) else some s)
            else none)
          lives in
      elim (Bool-cases ok) [
        | inl fine ↦ inr (
          h,
          up,
          is_h,
          under_guard ∙ found ∙ ap (λ t. if t then some (destroyed i h s) else some s) fine,
        )
        | inr failed ↦
            inl
              (under_guard ∙ found ∙ ap (λ t. if t then some (destroyed i h s) else some s) failed)
      ]
]

comm_init_rank-Owned :
    (i rank world device_id : ℕ) (s : Process)
    → (s.groups i).initialized ≡ false
    → Owned s
    → Owned (comm_init_rank true i rank world device_id s)
unfolding comm_init_rank
comm_init_rank-Owned i rank world device_id s down owned h lives =
    let g : CommGroup = record {
      handle = some s.next;
      rank = rank;
      world = world;
      device_id = device_id;
      initialized = true;
    } in
    elim (live_new s h lives) [
      | inl new ↦ elim (set_group-cases i g s.groups i) [
        | inl (_, is_g) ↦
            (i, ap (λ y. y.initialized) is_g, ap (λ y. y.handle) is_g ∙ ap some (sym new))
        | inr (ne, _) ↦ absurd (ne refl)
      ]
      | inr old ↦
          let (x, up, is_h) = owned h old in
          elim (set_group-cases i g s.groups x) [
            | inl (ix, _) ↦ absurd (cc (ap (λ y. (s.groups y).initialized) ix, down, up))
            | inr (_, same) ↦ (x, ap (λ y. y.initialized) same ∙ up, ap (λ y. y.handle) same ∙ is_h)
          ]
    ]

init_loop-Owned :
    (first n turns i : ℕ) (s : Process)
    → ((x : ℕ) → first + i ≤ x → x < first + (i + turns) → (s.groups x).initialized ≡ false)
    → Owned s
    → Owned (init_loop first n turns i s)
unfolding init_loop comm_init_rank
init_loop-Owned first n zero i s down owned = owned
init_loop-Owned first n (suc turns) i s down owned =
    let g : CommGroup = record {
      handle = some s.next;
      rank = i;
      world = n;
      device_id = i;
      initialized = true;
    } in
    init_loop-Owned first n turns (i + 1) (comm_init_rank true (first + i) i n i s)
      (λ x le less. elim (set_group-cases (first + i) g s.groups x) [
        | inl (ix, _) ↦ absurd (omega (arith, ix))
        | inr (_, same) ↦ ap (λ y. y.initialized) same ∙ down x (omega arith) (omega arith)
      ])
      (comm_init_rank-Owned (first + i) i n i s (down (first + i) (omega arith) (omega arith))
        owned)

resized-Owned :
    (first len n : ℕ) (s : Process)
    → ((x : ℕ) → first ≤ x → x < first + max len n → (s.groups x).initialized ≡ false)
    → Owned s
    → Owned (record s { groups = resize first len n s.groups })
resized-Owned first len n s down owned h lives =
    let (x, up, is_h) = owned h lives in
    elim (resize-cases first len n s.groups x) [
      | inl (low, high, _) ↦ absurd (cc (down x low high, up))
      | inr same ↦ (x, ap (λ y. y.initialized) same ∙ up, ap (λ y. y.handle) same ∙ is_h)
    ]

-- After a resize of a vector without an initialised group there is none up to the longer length.
resized_down :
    (first len n : ℕ) (groups : ℕ → CommGroup)
    → ((x : ℕ) → first ≤ x → x < first + max len n → (groups x).initialized ≡ false)
    → (x : ℕ) → first ≤ x
    → x < first + max len n
    → (resize first len n groups x).initialized ≡ false
resized_down first len n groups down x low high = elim (resize-cases first len n groups x) [
  | inl (_, _, is_new) ↦ ap (λ y. y.initialized) is_new
  | inr same ↦ ap (λ y. y.initialized) same ∙ down x low high
]

destroyed-Owned :
    (i h : ℕ) (s : Process) → (s.groups i).handle ≡ some h → Owned s → Owned (destroyed i h s)
destroyed-Owned i h s is_h owned x lives = elim (Bool-cases (h == x)) [
  | inl same ↦ absurd (cc (sym (ap (λ t. if t then false else s.live x) same) ∙ lives))
  | inr other ↦
      let ne : h ≢ x = ground arith in
      let (y, up, is_x) = owned x (sym (ap (λ t. if t then false else s.live x) other) ∙ lives) in
      elim (set_group-cases i (record (s.groups i) { handle = none; initialized = false }) s.groups
        y) [
          | inl (iy, _) ↦
              let both : some h ≡ some x = sym is_h ∙ ap (λ z. (s.groups z).handle) iy ∙ is_x in
              absurd (ne (cc both))
          | inr (_, same) ↦ (y, ap (λ z. z.initialized) same ∙ up, ap (λ z. z.handle) same ∙ is_x)
        ]
]

-- A call that makes or drops no group that is initialised, and no library's refusal of one rank.
abbrev pub IsClean : Call → Process → Type 0
IsClean (init_rank ok i rank world device_id) s = (ok ≡ true) × ((s.groups i).initialized ≡ false)
IsClean (init_all ok first len n) s =
    (x : ℕ) → first ≤ x → x < first + max len n → (s.groups x).initialized ≡ false
IsClean (destroy ok i) s = Unit

abbrev pub AllClean : List Call → Process → Type 0
AllClean [] s = Unit
AllClean (c ∷ cs) s = IsClean c s × ((s' : Process) → step c s ≡ some s' → AllClean cs s')

step_lem :
    (c : Call) (s : Process)
    → Inv s
    → (s' : Process) × (step c s ≡ some s') × Inv s' × (IsClean c s → Owned s → Owned s')
unfolding step comm_init_all
step_lem (init_rank ok i rank world device_id) s v = (
  comm_init_rank ok i rank world device_id s,
  refl,
  comm_init_rank-Inv ok i rank world device_id s v,
  λ (fine, down) owned.
      subst (λ t. Owned (comm_init_rank t i rank world device_id s)) (sym fine)
        (comm_init_rank-Owned i rank world device_id s down owned),
)
step_lem (init_all true first len n) s v = (
  comm_init_all true first len n s,
  refl,
  comm_init_all-Inv true first len n s v,
  λ down owned.
      init_loop-Owned first n n 0 (record s { groups = resize first len n s.groups })
        (λ x low high.
          resized_down first len n s.groups down x (omega (arith, low)) (omega (arith, high)))
        (resized-Owned first len n s down owned),
)
step_lem (init_all false first len n) s v = (
  record s { groups = resize first len n s.groups },
  refl,
  comm_init_all-Inv false first len n s v,
  λ down owned. resized-Owned first len n s down owned,
)
step_lem (destroy ok i) s v = elim (comm_destroy-cases ok i s v) [
  | inl same ↦ (s, same, v, λ _ owned. owned)
  | inr (h, up, is_h, runs) ↦ (
    destroyed i h s,
    runs,
    destroyed-Inv i h s v up is_h,
    λ _ owned. destroyed-Owned i h s is_h owned,
  )
]

-- Whatever groups, which are not copied, are made, resized away and destroyed, in whatever order and
-- with whatever calls of the library failing: no communicator is deleted twice and no null one followed,
-- and initialised groups have communicators of their own that live. Where no group is made over an
-- initialised one, the vectors given to `comm_init_all` hold none, not in the entries that its resize
-- drops either, and no `comm_init_rank` fails, every communicator that lives belongs to an initialised
-- group.
pub run_lem :
    (cs : List Call) (s : Process)
    → Inv s
    → (s' : Process) × (run cs s ≡ some s') × Inv s' × (AllClean cs s → Owned s → Owned s')
unfolding run
run_lem [] s v = (s, refl, v, λ _ owned. owned)
run_lem (c ∷ cs) s v =
    let (s1, runs, v1, keeps) = step_lem c s v in
    let (s2, rest, v2, later) = run_lem cs s1 v1 in
    (
      s2,
      ap (λ r. elim r as (λ x. Option Process) [ none ↦ none | some s' ↦ run cs s' ]) runs ∙ rest,
      v2,
      λ (clean, more) owned. later (more s1 runs) (keeps clean owned),
    )

pub start-Inv : Inv start
start-Inv = record {
  fresh = λ h lives. absurd (cc lives);
  held = λ i up. absurd (cc up);
  apart = λ i j h up_i up_j hi hj. absurd (cc up_i);
}
