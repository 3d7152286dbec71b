-- ===== src/Scheduler/Starvation.antt =====
-- Histories of the scheduler (src/scheduler.cpp): rounds of `schedule`, a forward pass and
-- `step_complete`, with requests and aborts between them.
use amp.Prelude.{
  ℕ, ◌<◌, ◌≡◌, ◌≢◌, refl, sym, ap, ◌∙◌, false, List, [], ◌∷◌, Option, none, some, length, leb, ◌==◌,
  arith, inl, inr, Bool-cases, Option-cases, All, All-snoc, subst,
}
use amp.PoolFast
use amp.Scheduler.Data.{Sequence, Scheduler, is_done, is_done_state, find_seq, erase_seq}
use amp.Scheduler.Step.{schedule}
use amp.Scheduler.Complete.{add_request, abort_in, abort_request, complete_loop, step_complete}
use amp.Scheduler.Ids.{schedule_conserves}
use amp.Scheduler.Parked.{IsStalled, Parked, Other}
use amp.Scheduler.Stuck.{schedule-Parked}
use amp.Scheduler.Rounds.{Stays, complete_loop-Stays, still_running-found, still_running-only}

-- A call: a request, an abort, or a round at two readings of the clock that gives `toks`.
pub data Call : Type 0 where
  request : List ℕ → ℕ → ℕ → Option ℕ → ℕ → Call
  abort : ℕ → Call
  round : ℕ → ℕ → List ℕ → Call

abbrev pub call : Call → Scheduler → Option Scheduler
call (Call.request prompt_tokens max_new_tokens temperature eos now) sc =
    some (add_request prompt_tokens max_new_tokens temperature eos now sc).0
call (Call.abort i) sc = some (abort_request i sc)
call (Call.round now later toks) sc = let r = schedule now sc in step_complete later r.1 toks r.0

abbrev pub run : List Call → Scheduler → Option Scheduler
run [] sc = some sc
run (c ∷ cs) sc = elim (call c sc) [ none ↦ none | some sc' ↦ run cs sc' ]

-- Whether a call aborts the sequence `i`.
abbrev pub Spares : ℕ → Call → Type 0
Spares i (Call.abort j) = j ≢ i
Spares i _ = Unit

module _ (i : ℕ) (s : Sequence) where
  -- `s` runs, no other sequence has its id, and no later one will get it.
  pub record Starved (sc : Scheduler) : Type 0 where
    pub parked : Parked i s sc.running
    pub queued : All (Other i s) sc.waiting
    pub issued : i < sc.next_id

  find-erase : (j : ℕ) (ss : List Sequence) → j ≢ i → find_seq i (erase_seq j ss) ≡ find_seq i ss
  find-erase j [] ne = refl
  find-erase j (x ∷ ss) ne = ground (arith, find-erase j ss ne, ne)

  All-erase {κ} :
      (P : Sequence → Type κ) (j : ℕ) (ss : List Sequence) → All P ss → All P (erase_seq j ss)
  All-erase P j [] h = tt
  All-erase P j (x ∷ ss) h = elim (Bool-cases (x.id == j)) [
    | inl e ↦ rw e h.1
    | inr e ↦ rw e (h.0, All-erase P j ss h.1)
  ]

  Parked-abort_in :
      (j : ℕ) (ss : List Sequence) (pool : PoolFast.Pool)
      → j ≢ i
      → Parked i s ss
      → Parked i s (abort_in j ss pool).1
  unfolding abort_in
  Parked-abort_in j ss pool ne p = elim (Option-cases (find_seq j ss)) [
    | inl e ↦ rw (e, abort_in) p
    | inr (t, e) ↦
        rw (e, abort_in)
          (record {
            found = find-erase j ss ne ∙ p.found;
            only = All-erase (λ t. t.id ≡ i → t ≡ s) j ss p.only;
          })
  ]

  Other-abort_in :
      (j : ℕ) (ss : List Sequence) (pool : PoolFast.Pool)
      → All (Other i s) ss
      → All (Other i s) (abort_in j ss pool).1
  unfolding abort_in
  Other-abort_in j ss pool off = elim (Option-cases (find_seq j ss)) [
    | inl e ↦ rw (e, abort_in) off
    | inr (t, e) ↦ rw (e, abort_in) (All-erase (Other i s) j ss off)
  ]

  abbrev pub Remains : Option Scheduler → Type 0
  Remains none = ⊥
  Remains (some sc) = Starved sc

  round-Remains :
      (now later : ℕ) (toks : List ℕ) (sc : Scheduler)
      → IsStalled s
      → Starved sc
      → Remains (call (Call.round now later toks) sc)
  unfolding step_complete
  round-Remains now later toks sc st v =
      let r = schedule now sc in
      let (p, off, old, others) = schedule-Parked i s now sc st v.queued v.parked v.issued in
      let stays =
        complete_loop-Stays i s later r.1.entries toks r.0 (schedule_conserves now sc).2 others p in
      let live : is_done s ≡ false = elim st [
        | inl e ↦ ap is_done_state e
        | inr e ↦ ap is_done_state e.0
      ] in
      elim (Option-cases (complete_loop later r.1.entries toks r.0)) [
        | inl e ↦ absurd (rw e at stays)
        | inr (sc', e) ↦
            let stays' : Stays i s r.0.waiting r.0.next_id (some sc') = rw e at stays in
            rw (e, step_complete)
              (record {
                parked = record {
                  found = still_running-found i s sc'.running live stays'.0.found stays'.0.only;
                  only = still_running-only i s sc'.running stays'.0.only;
                };
                queued = subst (All (Other i s)) (sym stays'.1) off;
                issued = omega (arith, old, stays'.2);
              })
      ]

  call-Remains :
      (c : Call) (sc : Scheduler) → IsStalled s → Spares i c → Starved sc → Remains (call c sc)
  unfolding add_request abort_request
  call-Remains (Call.request prompt_tokens max_new temperature eos now) sc st spares v =
      elim (Bool-cases (leb sc.cfg.max_waiting_seqs (length sc.waiting))) [
        | inl full ↦
            rw (full, add_request)
              (record { parked = v.parked; queued = v.queued; issued = omega (arith, v.issued) })
        | inr room ↦
            rw (room, add_request)
              (record {
                parked = v.parked;
                queued =
                    All-snoc (Other i s) sc.waiting _ v.queued (λ same. omega (arith, v.issued));
                issued = omega (arith, v.issued);
              })
      ]
  call-Remains (Call.abort j) sc st spares v = record {
    parked = Parked-abort_in j sc.running _ spares v.parked;
    queued = Other-abort_in j sc.waiting _ v.queued;
    issued = v.issued;
  }
  call-Remains (Call.round now later toks) sc st spares v = round-Remains now later toks sc st v

  -- A sequence of `running_` that waits (as a preempted one does), or whose prompt has no token left
  -- to prefill, stays there as it is, without a token, through any history of requests, rounds and
  -- aborts of others, if no other sequence has its id; and the history never faults.
  pub run-Remains :
      (cs : List Call) (sc : Scheduler)
      → IsStalled s
      → All (Spares i) cs
      → Starved sc
      → Remains (run cs sc)
  run-Remains [] sc st spares v = v
  run-Remains (c ∷ cs) sc st spares v =
      let next = call-Remains c sc st spares.0 v in
      elim (Option-cases (call c sc)) [
        | inl e ↦ absurd (rw e at next)
        | inr (sc', e) ↦
            let v' : Starved sc' = rw e at next in
            rw (e, Remains) (run-Remains cs sc' st spares.1 v')
      ]
