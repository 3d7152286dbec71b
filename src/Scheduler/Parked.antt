-- ===== src/Scheduler/Parked.antt =====
-- A sequence of `running_` (src/scheduler.cpp) that is not over and has nothing to do: what the
-- steps that put a batch together do around it.
use amp.Prelude.{
  ℕ, ◌<◌, ◌≡◌, ◌≢◌, refl, sym, ap, ◌∙◌, Bool, false, List, [], ◌∷◌, ◌++◌, Option, none, some, ◌==◌,
  arith, ◌⊎◌, inl, inr, Bool-cases, Option-cases, All, All-snoc,
}
use amp.PoolFast
use amp.Scheduler.Data.{SeqState, Sequence, Config, remaining_prefill, find_seq, put_seq, unsnoc}
use amp.Scheduler.Pages.{try_alloc_pages, preempt_sequence, free_pages}
use amp.Scheduler.Step.{
  Work, push_prefill, preempt, prefill_retry, push_decode, seqs_in, is_prefill_state,
}

pub find_seq-id : (i : ℕ) (ss : List Sequence) (t : Sequence) → find_seq i ss ≡ some t → t.id ≡ i
find_seq-id i [] t e = grind arith
find_seq-id i (x ∷ ss) t e = ground (arith, find_seq-id i ss t)

pub try_alloc_pages-id :
    (cfg : Config) (now : ℕ) (s : Sequence) (n : ℕ) (pool : PoolFast.Pool)
    → (try_alloc_pages cfg now s n pool).seq.id ≡ s.id
unfolding try_alloc_pages
try_alloc_pages-id cfg now s n pool = ground arith

pub preempt_sequence-id :
    (s : Sequence) (pool : PoolFast.Pool) → (preempt_sequence s pool).1.id ≡ s.id
unfolding preempt_sequence free_pages
preempt_sequence-id s pool = ground arith

abbrev Both {κ} : (ℕ → Type κ) → Option (List ℕ × ℕ) → Type κ
Both P none = Unit
Both P (some (front, last)) = All P front × P last

unsnoc-All {κ} : (P : ℕ → Type κ) (xs : List ℕ) → All P xs → Both P (unsnoc xs)
unsnoc-All P [] h = tt
unsnoc-All P (x ∷ xs) h = elim (Option-cases (unsnoc xs)) [
  | inl n ↦ rw n (tt, h.0)
  | inr ((front, last), n) ↦
      let ih : Both P (some (front, last)) = rw n at (unsnoc-All P xs h.1) in
      rw n ((h.0, ih.0), ih.1)
]

-- A sequence that is not over and has nothing that `schedule` would do: it waits, or its prompt has
-- no token left.
abbrev pub IsStalled : Sequence → Type 0
IsStalled s =
    (s.state ≡ SeqState.waiting) ⊎ ((s.state ≡ SeqState.prefill) × (remaining_prefill s ≡ 0))

module _ (i : ℕ) (s : Sequence) where
  -- The sequence `s` is in the list, and no other has its id.
  pub record Parked (ss : List Sequence) : Type 0 where
    pub found : find_seq i ss ≡ some s
    pub only : All (λ t. t.id ≡ i → t ≡ s) ss

  abbrev pub Other : Sequence → Type 0
  Other t = t.id ≢ i

  only-put :
      (t : Sequence) (ss : List Sequence)
      → Other t
      → All (λ t. t.id ≡ i → t ≡ s) ss
      → All (λ t. t.id ≡ i → t ≡ s) (put_seq t ss)
  only-put t [] ne h = tt
  only-put t (x ∷ ss) ne h = elim (Bool-cases (x.id == t.id)) [
    | inl e ↦ rw e ((λ same. absurd (ne same)), h.1)
    | inr e ↦ rw e (h.0, only-put t ss ne h.1)
  ]

  found-put :
      (t : Sequence) (ss : List Sequence) → Other t → find_seq i (put_seq t ss) ≡ find_seq i ss
  found-put t [] ne = refl
  found-put t (x ∷ ss) ne = ground (arith, found-put t ss ne, ne)

  pub Parked-put : (t : Sequence) (ss : List Sequence) → Other t → Parked ss → Parked (put_seq t ss)
  Parked-put t ss ne p = record {
    found = rw (found-put t ss ne) p.found;
    only = only-put t ss ne p.only;
  }

  found-snoc :
      (t : Sequence) (ss : List Sequence)
      → find_seq i ss ≡ some s
      → find_seq i (ss ++ t ∷ []) ≡ some s
  found-snoc t [] e = grind arith
  found-snoc t (x ∷ ss) e = ground (arith, found-snoc t ss)

  pub Parked-snoc :
      (t : Sequence) (ss : List Sequence) → Other t → Parked ss → Parked (ss ++ t ∷ [])
  Parked-snoc t ss ne p = record {
    found = found-snoc t ss p.found;
    only = All-snoc (λ t. t.id ≡ i → t ≡ s) ss t p.only (λ same. absurd (ne same));
  }

  -- A test that fails on `s` collects only other sequences.
  pub seqs_in-Other :
      (kind : SeqState → Bool) (ss : List Sequence)
      → kind s.state ≡ false
      → All (λ t. t.id ≡ i → t ≡ s) ss
      → All (λ j. j ≢ i) (seqs_in kind ss)
  seqs_in-Other kind [] off h = tt
  seqs_in-Other kind (x ∷ ss) off h = elim (Bool-cases (kind x.state)) [
    | inl e ↦ rw e (
      (λ same.
          let x_is : x ≡ s = h.0 same in
          let k : kind x.state ≡ kind s.state = ap (λ y. kind y.state) x_is in cc),
      seqs_in-Other kind ss off h.1,
    )
    | inr e ↦ rw e (seqs_in-Other kind ss off h.1)
  ]

  -- And one that finds only sequences without a prompt token left.
  pub seqs_in-spent :
      (ss : List Sequence)
      → IsStalled s
      → All (λ t. t.id ≡ i → t ≡ s) ss
      → All (λ j. j ≡ i → remaining_prefill s ≡ 0) (seqs_in is_prefill_state ss)
  seqs_in-spent [] st h = tt
  seqs_in-spent (x ∷ ss) st h = elim (Bool-cases (is_prefill_state x.state)) [
    | inl e ↦ rw e (
      (λ same.
          let x_is : x ≡ s = h.0 same in
          let k : is_prefill_state x.state ≡ is_prefill_state s.state =
            ap (λ y. is_prefill_state y.state) x_is in
          elim st [
            | inl wt ↦
                let k' : is_prefill_state s.state ≡ false = ap is_prefill_state wt in absurd (cc)
            | inr pf ↦ pf.1
          ]),
      seqs_in-spent ss st h.1,
    )
    | inr e ↦ rw e (seqs_in-spent ss st h.1)
  ]

  -- While a batch is put together: `s` is parked, and neither the batch nor the sequences that may
  -- be preempted have its id.
  pub record Kept (w : Work) : Type 0 where
    pub parked : Parked w.sc.running
    pub decodes : All (λ j. j ≢ i) w.decode_seqs
    pub entries : All (λ e. e.seq ≢ i) w.batch.entries
    pub queued : All Other w.sc.waiting
    pub issued : i < w.sc.next_id

  pub push_prefill-Kept :
      (t : Sequence) (chunk : ℕ) (pool : PoolFast.Pool) (w : Work)
      → Other t
      → Kept w
      → Kept (push_prefill t chunk pool w)
  unfolding push_prefill
  push_prefill-Kept t chunk pool w ne k = record {
    parked = Parked-put t w.sc.running ne k.parked;
    decodes = k.decodes;
    entries = All-snoc (λ e. e.seq ≢ i) w.batch.entries _ k.entries ne;
    queued = k.queued;
    issued = k.issued;
  }

  pub push_decode-Kept :
      (t : Sequence) (pool : PoolFast.Pool) (w : Work)
      → Other t
      → Kept w
      → Kept (push_decode t pool w)
  unfolding push_decode
  push_decode-Kept t pool w ne k = record {
    parked = Parked-put t w.sc.running ne k.parked;
    decodes = k.decodes;
    entries = All-snoc (λ e. e.seq ≢ i) w.batch.entries _ k.entries ne;
    queued = k.queued;
    issued = k.issued;
  }

  pub preempt-Kept :
      (v : Sequence) (pool : PoolFast.Pool) (w : Work) → Other v → Kept w → Kept (preempt v pool w)
  unfolding preempt
  preempt-Kept v pool w ne k = record {
    parked = Parked-put _ w.sc.running (λ e. ne (sym (preempt_sequence-id v pool) ∙ e)) k.parked;
    decodes = k.decodes;
    entries = k.entries;
    queued = k.queued;
    issued = k.issued;
  }

  moved-Kept :
      (pool : PoolFast.Pool) (decodes : List ℕ) (w : Work)
      → All (λ j. j ≢ i) decodes
      → Kept w
      → Kept (record w { sc = record (w.sc) { kv_pool = pool }; decode_seqs = decodes })
  moved-Kept pool decodes w off k = record {
    parked = k.parked;
    decodes = off;
    entries = k.entries;
    queued = k.queued;
    issued = k.issued;
  }

  pub prefill_retry-Kept :
      (now : ℕ) (t : Sequence) (chunk : ℕ) (pool : PoolFast.Pool) (w : Work)
      → Other t
      → Kept w
      → Kept (prefill_retry now t chunk pool w)
  unfolding prefill_retry
  prefill_retry-Kept now t chunk pool w ne k = elim (Option-cases (unsnoc w.decode_seqs)) [
    | inl e ↦ rw (e, prefill_retry) (moved-Kept pool w.decode_seqs w k.decodes k)
    | inr ((front, last), e) ↦ elim (Option-cases (find_seq last w.sc.running)) [
      | inl f ↦ rw (e, f, prefill_retry) (moved-Kept pool w.decode_seqs w k.decodes k)
      | inr (v, f) ↦
          let off : Both (λ j. j ≢ i) (some (front, last)) =
            rw e at (unsnoc-All (λ j. j ≢ i) w.decode_seqs k.decodes) in
          let v_id = find_seq-id last w.sc.running v f in
          let p = preempt v pool w in
          let w' = record p { decode_seqs = front } in
          let k' =
            moved-Kept p.sc.kv_pool front p off.0
              (preempt-Kept v pool w (λ e. off.1 (sym v_id ∙ e)) k) in
          let r = try_alloc_pages w.sc.cfg now t chunk w'.sc.kv_pool in
          let same = try_alloc_pages-id w.sc.cfg now t chunk w'.sc.kv_pool in
          elim (Bool-cases r.ok) [
            | inl got ↦
                rw (e, f, got, prefill_retry)
                  (push_prefill-Kept r.seq chunk r.pool w' (λ e. ne (sym same ∙ e)) k')
            | inr bad ↦ rw (e, f, bad, prefill_retry) (moved-Kept r.pool front w' off.0 k')
          ]
    ]
  ]
