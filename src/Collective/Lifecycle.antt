-- ===== src/Collective/Lifecycle.antt =====
-- Histories of `comm_init_rank`, `comm_init_all` and `comm_destroy` (src/collective.cpp).
use amp.Prelude.{
  ℕ, zero, suc, ◌+◌, ◌≤◌, ◌<◌, ltb, leb, min, max, ◌&&◌, ◌≡◌, ◌≢◌, sym, ap, ◌∙◌, subst, Bool, true,
  false, none, some, if◌then◌else◌, ◌==◌, arith, ◌⊎◌, inl, inr, Bool-cases,
}
use amp.Collective.{
  CommGroup, Process, set_group, set_live, comm_init_rank, init_loop, comm_init_all, resize,
  default_group,
}

-- Each initialised group has a communicator that lives, and no two have the same.
pub record Inv (s : Process) : Type 0 where
  pub fresh : (h : ℕ) → s.live h ≡ true → h < s.next
  pub held :
      (i : ℕ)
      → (s.groups i).initialized ≡ true
      → (h : ℕ) × ((s.groups i).handle ≡ some h) × (s.live h ≡ true)
  pub apart :
      (i j h : ℕ)
      → (s.groups i).initialized ≡ true
      → (s.groups j).initialized ≡ true
      → (s.groups i).handle ≡ some h
      → (s.groups j).handle ≡ some h
      → i ≡ j

-- A communicator that lives belongs to an initialised group.
abbrev pub Owned : Process → Type 0
Owned s =
    (h : ℕ)
    → s.live h ≡ true
    → (i : ℕ) × ((s.groups i).initialized ≡ true) × ((s.groups i).handle ≡ some h)

pub live_new :
    (s : Process) (h : ℕ) → set_live s.next true s.live h ≡ true → (h ≡ s.next) ⊎ (s.live h ≡ true)
live_new s h here = elim (Bool-cases (s.next == h)) [
  | inl same ↦ inl (ground arith)
  | inr other ↦ inr (sym (ap (λ t. if t then true else s.live h) other) ∙ here)
]

live_kept : (s : Process) (h : ℕ) → s.live h ≡ true → set_live s.next true s.live h ≡ true
live_kept s h here = elim (Bool-cases (s.next == h)) [
  | inl same ↦ ap (λ t. if t then true else s.live h) same
  | inr other ↦ ap (λ t. if t then true else s.live h) other ∙ here
]

-- What the group `x` is after a change of the group `i`.
pub set_group-cases :
    (i : ℕ) (g : CommGroup) (groups : ℕ → CommGroup) (x : ℕ)
    → (i ≡ x) × (set_group i g groups x ≡ g) ⊎ ((i ≢ x) × (set_group i g groups x ≡ groups x))
set_group-cases i g groups x = elim (Bool-cases (i == x)) [
  | inl same ↦ inl (ground arith, ap (λ t. if t then g else groups x) same)
  | inr other ↦ inr (ground arith, ap (λ t. if t then g else groups x) other)
]

handle_lives :
    (s : Process)
    → Inv s
    → (i h : ℕ) → (s.groups i).initialized ≡ true
    → (s.groups i).handle ≡ some h
    → s.live h ≡ true
handle_lives s v i h up is_h =
    let (h', is_h', lives) = v.held i up in
    let same : h' ≡ h = cc (is_h, is_h') in subst (λ x. s.live x ≡ true) same lives

pub comm_init_rank-Inv :
    (ok : Bool) (i rank world device_id : ℕ) (s : Process)
    → Inv s
    → Inv (comm_init_rank ok i rank world device_id s)
unfolding comm_init_rank
comm_init_rank-Inv false i rank world device_id s v = record {
  fresh = λ h lives. elim (live_new s h lives) [
    | inl new ↦ omega (arith, new)
    | inr old ↦ omega (arith, v.fresh h old)
  ];
  held = λ x up. (let (h, is_h, lives) = v.held x up in (h, is_h, live_kept s h lives));
  apart = v.apart;
}
comm_init_rank-Inv true i rank world device_id s v =
    let g : CommGroup = record {
      handle = some s.next;
      rank = rank;
      world = world;
      device_id = device_id;
      initialized = true;
    } in
    let mine : set_live s.next true s.live s.next ≡ true =
      (let same : (s.next == s.next) ≡ true = ground arith in
        ap (λ t. if t then true else s.live s.next) same) in
    -- A group that was there before has an older communicator.
    let older : (x : ℕ) → (s.groups x).initialized ≡ true → (s.groups x).handle ≡ some s.next → ⊥ =
      λ x up is_h. omega (arith, v.fresh s.next (handle_lives s v x s.next up is_h)) in
    record {
      fresh = λ h lives. elim (live_new s h lives) [
        | inl new ↦ omega (arith, new)
        | inr old ↦ omega (arith, v.fresh h old)
      ];
      held = λ x up. elim (set_group-cases i g s.groups x) [
        | inl (_, is_g) ↦ (s.next, ap (λ y. y.handle) is_g, mine)
        | inr (_, same) ↦
            (let (h, is_h, lives) = v.held x (sym (ap (λ y. y.initialized) same) ∙ up) in
              (h, ap (λ y. y.handle) same ∙ is_h, live_kept s h lives))
      ];
      apart = λ x y h up_x up_y hx hy. elim (set_group-cases i g s.groups x) [
        | inl (ix, is_x) ↦ elim (set_group-cases i g s.groups y) [
          | inl (iy, is_y) ↦ sym ix ∙ iy
          | inr (_, is_y) ↦
              (let hx' : some s.next ≡ some h = sym (ap (λ z. z.handle) is_x) ∙ hx in
                let hy' = sym (ap (λ z. z.handle) is_y) ∙ hy in
                absurd (older y (sym (ap (λ z. z.initialized) is_y) ∙ up_y) (hy' ∙ sym hx')))
        ]
        | inr (_, is_x) ↦ elim (set_group-cases i g s.groups y) [
          | inl (iy, is_y) ↦
              (let hy' : some s.next ≡ some h = sym (ap (λ z. z.handle) is_y) ∙ hy in
                let hx' = sym (ap (λ z. z.handle) is_x) ∙ hx in
                absurd (older x (sym (ap (λ z. z.initialized) is_x) ∙ up_x) (hx' ∙ sym hy')))
          | inr (_, is_y) ↦
              v.apart x y h (sym (ap (λ z. z.initialized) is_x) ∙ up_x)
                (sym (ap (λ z. z.initialized) is_y) ∙ up_y) (sym (ap (λ z. z.handle) is_x) ∙ hx)
                (sym (ap (λ z. z.handle) is_y) ∙ hy)
        ]
      ];
    }

init_loop-Inv : (first n turns i : ℕ) (s : Process) → Inv s → Inv (init_loop first n turns i s)
unfolding init_loop
init_loop-Inv first n zero i s v = v
init_loop-Inv first n (suc turns) i s v =
    init_loop-Inv first n turns (i + 1) (comm_init_rank true (first + i) i n i s)
      (comm_init_rank-Inv true (first + i) i n i s v)

-- What the group `x` is after a resize: as it was, or a default group.
pub resize-cases :
    (first len n : ℕ) (groups : ℕ → CommGroup) (x : ℕ)
    → ((first ≤ x) × (x < first + max len n) × (resize first len n groups x ≡ default_group))
      ⊎ (resize first len n groups x ≡ groups x)
resize-cases first len n groups x =
    elim (Bool-cases (leb (first + min len n) x && ltb x (first + max len n))) [
      | inl gone ↦
          let low : first + min len n ≤ x = ground arith in
          let high : x < first + max len n = ground arith in
          inl (omega (arith, low), high, ap (λ t. if t then default_group else groups x) gone)
      | inr kept ↦ inr (ap (λ t. if t then default_group else groups x) kept)
    ]

resized-Inv :
    (first len n : ℕ) (s : Process)
    → Inv s
    → Inv (record s { groups = resize first len n s.groups })
resized-Inv first len n s v =
    let kept : (x : ℕ)
        → (resize first len n s.groups x).initialized ≡ true
        → resize first len n s.groups x ≡ s.groups x =
      λ x up. elim (resize-cases first len n s.groups x) [
        | inl (_, _, is_new) ↦ absurd (cc (sym (ap (λ y. y.initialized) is_new) ∙ up))
        | inr same ↦ same
      ] in
    record {
      fresh = v.fresh;
      held = λ x up.
          (let same = kept x up in
            let (h, is_h, lives) = v.held x (sym (ap (λ y. y.initialized) same) ∙ up) in
            (h, ap (λ y. y.handle) same ∙ is_h, lives));
      apart = λ x y h up_x up_y hx hy.
          (let is_x = kept x up_x in
            let is_y = kept y up_y in
            v.apart x y h (sym (ap (λ z. z.initialized) is_x) ∙ up_x)
              (sym (ap (λ z. z.initialized) is_y) ∙ up_y) (sym (ap (λ z. z.handle) is_x) ∙ hx)
              (sym (ap (λ z. z.handle) is_y) ∙ hy));
    }

pub comm_init_all-Inv :
    (ok : Bool) (first len n : ℕ) (s : Process) → Inv s → Inv (comm_init_all ok first len n s)
unfolding comm_init_all
comm_init_all-Inv false first len n s v = resized-Inv first len n s v
comm_init_all-Inv true first len n s v =
    init_loop-Inv first n n 0 (record s { groups = resize first len n s.groups })
      (resized-Inv first len n s v)

-- What `comm_destroy` leaves of an initialised group with the communicator `h`.
abbrev pub destroyed : ℕ → ℕ → Process → Process
destroyed i h s = record {
  groups = set_group i (record (s.groups i) { handle = none; initialized = false }) s.groups;
  live = set_live h false s.live;
  next = s.next;
}

pub destroyed-Inv :
    (i h : ℕ) (s : Process)
    → Inv s
    → (s.groups i).initialized ≡ true
    → (s.groups i).handle ≡ some h
    → Inv (destroyed i h s)
destroyed-Inv i h s v up is_h =
    let g : CommGroup = record (s.groups i) { handle = none; initialized = false } in
    let was : (x : ℕ)
        → (set_group i g s.groups x).initialized ≡ true
        → (i ≢ x) × (set_group i g s.groups x ≡ s.groups x) =
      λ x up_x. elim (set_group-cases i g s.groups x) [
        | inl (_, is_g) ↦ absurd (cc (sym (ap (λ y. y.initialized) is_g) ∙ up_x))
        | inr rest ↦ rest
      ] in
    record {
      fresh = λ x lives. elim (Bool-cases (h == x)) [
        | inl same ↦ absurd (cc (sym (ap (λ t. if t then false else s.live x) same) ∙ lives))
        | inr other ↦ v.fresh x (sym (ap (λ t. if t then false else s.live x) other) ∙ lives)
      ];
      held = λ x up_x.
          (let (ne, same) = was x up_x in
            let up' = sym (ap (λ y. y.initialized) same) ∙ up_x in
            let (h', is_h', lives) = v.held x up' in
            let other : (h == h') ≡ false = elim (Bool-cases (h == h')) [
              | inl equal ↦
                  let is_same : h ≡ h' = ground arith in
                  absurd (ne (v.apart i x h up up' is_h (is_h' ∙ ap some (sym is_same))))
              | inr apart ↦ apart
            ] in
            (
              h',
              ap (λ y. y.handle) same ∙ is_h',
              ap (λ t. if t then false else s.live h') other ∙ lives,
            ));
      apart = λ x y h' up_x up_y hx hy.
          (let (_, is_x) = was x up_x in
            let (_, is_y) = was y up_y in
            v.apart x y h' (sym (ap (λ z. z.initialized) is_x) ∙ up_x)
              (sym (ap (λ z. z.initialized) is_y) ∙ up_y) (sym (ap (λ z. z.handle) is_x) ∙ hx)
              (sym (ap (λ z. z.handle) is_y) ∙ hy));
    }
