-- ===== src/Scheduler/Preempted.antt =====
-- What `Scheduler::preempt_sequence` (src/scheduler.cpp) makes of a sequence that runs.
use amp.Prelude.{
  ℕ, ◌≡◌, refl, ap, ◌∙◌, List, [], ◌∷◌, some, ◌==◌, arith, inl, inr, Bool-cases, All, count, subst,
}
use amp.PoolFast
use amp.Scheduler.Data.{Sequence, find_seq, put_seq, ids}
use amp.Scheduler.Pages.{preempt_sequence, free_pages}
use amp.Scheduler.Step.{Work, preempt}
use amp.Scheduler.Parked.{preempt_sequence-id, IsStalled, Parked}

none-Other :
    (j : ℕ) (u : Sequence) (ss : List Sequence)
    → count j (ids ss) ≡ 0
    → All (λ t. t.id ≡ j → t ≡ u) ss
none-Other j u [] h = tt
none-Other j u (x ∷ ss) h = ((λ e. absurd (ground arith)), none-Other j u ss (omega arith))

put-only :
    (u : Sequence) (ss : List Sequence)
    → count u.id (ids ss) ≡ 1
    → All (λ t. t.id ≡ u.id → t ≡ u) (put_seq u ss)
put-only u [] h = tt
put-only u (x ∷ ss) h = elim (Bool-cases (x.id == u.id)) [
  | inl e ↦ rw e ((λ same. refl), none-Other u.id u ss (ground arith))
  | inr e ↦ rw e ((λ same. absurd (ground arith)), put-only u ss (ground arith))
]

put-found :
    (u : Sequence) (ss : List Sequence)
    → count u.id (ids ss) ≡ 1
    → find_seq u.id (put_seq u ss) ≡ some u
put-found u [] h = absurd (omega arith)
put-found u (x ∷ ss) h = ground (arith, put-found u ss)

pages-freed : (v : Sequence) (pool : PoolFast.Pool) → (free_pages v pool).1.kv_page_ids ≡ []
unfolding free_pages
pages-freed v pool = ground arith

preempted_state :
    (v : Sequence) (pool : PoolFast.Pool)
    → let u = (preempt_sequence v pool).1 in
      IsStalled u × (u.kv_page_ids ≡ []) × (u.output_tokens ≡ []) × (u.prefill_cursor ≡ 0)
unfolding preempt_sequence
preempted_state v pool = (inl refl, pages-freed v pool, refl, refl)

-- A sequence that is preempted stays in `running_`: it is not put back in the waiting queue. From
-- then on it is WAITING, with no pages, no output and nothing prefilled.
preempt_stalls :
    (v : Sequence) (pool : PoolFast.Pool) (w : Work)
    → count v.id (ids w.sc.running) ≡ 1
    → let u = (preempt_sequence v pool).1 in
      let after = preempt v pool w in
      Parked v.id u after.sc.running
      × IsStalled u
      × (u.kv_page_ids ≡ [])
      × (u.output_tokens ≡ [])
      × (u.prefill_cursor ≡ 0)
unfolding preempt
preempt_stalls v pool w once =
    let u = (preempt_sequence v pool).1 in
    let same : u.id ≡ v.id = preempt_sequence-id v pool in
    let once' : count u.id (ids w.sc.running) ≡ 1 =
      ap (λ j. count j (ids w.sc.running)) same ∙ once in
    let (stalled, pages, output, cursor) = preempted_state v pool in
    (
      subst (λ j. Parked j u (put_seq u w.sc.running)) same
          (record { found = put-found u w.sc.running once'; only = put-only u w.sc.running once' }),
      stalled,
      pages,
      output,
      cursor,
    )
