-- ===== src/Scheduler/Rounds.antt =====
-- `Scheduler::step_complete` (src/scheduler.cpp) on the batch of `schedule`: the pointers of the
-- batch, and a sequence that has nothing to do.
use amp.Prelude.{
  ℕ, ◌≤◌, ◌<◌, ◌≡◌, ◌≢◌, refl, sym, ap, ◌∙◌, true, false, List, [], ◌∷◌, Option, none, some, ◌==◌,
  arith, inl, inr, Bool-cases, Option-cases, All, ==_iff, count, map, has, subst,
}
use amp.Scheduler.Data.{Sequence, BatchEntry, Batch, Scheduler, is_done, find_seq, put_seq, ids}
use amp.Scheduler.Step.{schedule}
use amp.Scheduler.Complete.{
  abort_in, abort_request, prefilled, decoded, complete_decode, complete_loop, still_running,
  step_complete, rest_tokens, next_token,
}
use amp.Scheduler.Ids.{ids-put, find_seq-some, find_seq-none, count-erase, schedule_conserves}
use amp.Scheduler.Parked.{find_seq-id, Parked, Parked-put}

-- The entries of a batch point to sequences that run.
abbrev pub IsLive : List BatchEntry → Scheduler → Type 0
IsLive entries sc = All (λ e. 0 < count e.seq (ids sc.running)) entries

prefilled-id : (n : ℕ) (t : Sequence) → (prefilled n t).id ≡ t.id
unfolding prefilled
prefilled-id n t = ground arith

decoded-id : (tok : ℕ) (t : Sequence) → (decoded tok t).0.id ≡ t.id
unfolding decoded
decoded-id tok t = ground arith

complete_decode-running :
    (now tok : ℕ) (t : Sequence) (sc : Scheduler)
    → (complete_decode now tok t sc).running ≡ put_seq (decoded tok t).0 sc.running
unfolding complete_decode
complete_decode-running now tok t sc = ground arith

complete_decode-waiting :
    (now tok : ℕ) (t : Sequence) (sc : Scheduler)
    → ((complete_decode now tok t sc).waiting ≡ sc.waiting)
      × ((complete_decode now tok t sc).next_id ≡ sc.next_id)
unfolding complete_decode
complete_decode-waiting now tok t sc = ground arith

IsLive-put :
    (u : Sequence) (entries : List BatchEntry) (sc sc' : Scheduler)
    → sc'.running ≡ put_seq u sc.running
    → IsLive entries sc
    → IsLive entries sc'
IsLive-put u entries sc sc' e live =
    subst (λ js. All (λ e. 0 < count e.seq js) entries) (sym (ap ids e ∙ ids-put u sc.running)) live

-- While the entries point to sequences that run, the loop comes to its end.
complete_loop-returns :
    (now : ℕ) (entries : List BatchEntry) (toks : List ℕ) (sc : Scheduler)
    → IsLive entries sc
    → (sc' : Scheduler) × (complete_loop now entries toks sc ≡ some sc')
unfolding complete_loop
complete_loop-returns now [] toks sc live = (sc, refl)
complete_loop-returns now (e ∷ es) toks sc live = elim (Option-cases (find_seq e.seq sc.running)) [
  | inl gone ↦ absurd (omega (arith, live.0, find_seq-none e.seq sc.running gone))
  | inr (t, here) ↦ elim (Bool-cases e.is_prefill) [
    | inl pf ↦
        let u = prefilled e.n_tokens t in
        let sc1 = record sc { running = put_seq u sc.running } in
        rw (here, pf, complete_loop)
          (complete_loop-returns now es toks sc1 (IsLive-put u es sc sc1 refl live.1))
    | inr dc ↦
        let u = (decoded (next_token toks) t).0 in
        let sc1 = complete_decode now (next_token toks) t sc in
        rw (here, dc, complete_loop)
          (complete_loop-returns now es (rest_tokens toks) sc1
            (IsLive-put u es sc sc1 (complete_decode-running now (next_token toks) t sc) live.1))
  ]
]

-- `step_complete` straight after `schedule` meets no pointer to a sequence that is gone.
pub step_complete_after_schedule :
    (now later : ℕ) (toks : List ℕ) (sc : Scheduler)
    → let r = schedule now sc in step_complete later r.1 toks r.0 ≢ none
unfolding step_complete
step_complete_after_schedule now later toks sc =
    let r = schedule now sc in
    let live = (schedule_conserves now sc).2 in
    let (sc', e) = complete_loop-returns later r.1.entries toks r.0 live in
    rw (e, step_complete) (λ h. grind arith)

has-rest :
    (i j : ℕ) (js running : List ℕ)
    → has i (j ∷ js) ≡ true
    → count i running ≡ 0
    → 0 < count j running
    → has i js ≡ true
has-rest i j js running h gone runs = elim (Bool-cases (j == i)) [
  | inl same ↦
      let j_is : j ≡ i = (==_iff j i).0 same in
      absurd (omega (arith, ap (λ j. count j running) j_is))
  | inr other ↦ ground arith
]

-- A loop that comes to an entry whose sequence is gone stops there.
complete_loop-dangling :
    (now i : ℕ) (entries : List BatchEntry) (toks : List ℕ) (sc : Scheduler)
    → has i (map (λ e. e.seq) entries) ≡ true
    → count i (ids sc.running) ≡ 0
    → complete_loop now entries toks sc ≡ none
unfolding complete_loop
complete_loop-dangling now i [] toks sc in_batch gone = grind arith
complete_loop-dangling now i (e ∷ es) toks sc in_batch gone =
    elim (Option-cases (find_seq e.seq sc.running)) [
      | inl none_here ↦ rw (none_here, complete_loop) refl
      | inr (t, here) ↦
          let runs = find_seq-some e.seq sc.running t here in
          let later : has i (map (λ e. e.seq) es) ≡ true =
            has-rest i e.seq _ (ids sc.running) in_batch gone runs in
          elim (Bool-cases e.is_prefill) [
            | inl pf ↦
                let u = prefilled e.n_tokens t in
                let sc1 = record sc { running = put_seq u sc.running } in
                rw (here, pf, complete_loop)
                  (complete_loop-dangling now i es toks sc1 later
                    (omega (arith, gone, ap (λ l. count i l) (ids-put u sc.running))))
            | inr dc ↦
                let tok = next_token toks in
                let u = (decoded tok t).0 in
                let sc1 = complete_decode now tok t sc in
                rw (here, dc, complete_loop)
                  (complete_loop-dangling now i es (rest_tokens toks) sc1 later (
                    omega (
                      arith,
                      gone,
                      ap (λ l. count i l) (ids-put u sc.running),
                      ap (λ l. count i (ids l)) (complete_decode-running now tok t sc),
                    )))
          ]
    ]

-- A sequence of the batch that is aborted before `step_complete`: the loop follows a pointer to
-- freed memory. The ids are those that `add_request` gives, so no two sequences share one.
pub step_complete_after_abort :
    (now i : ℕ) (toks : List ℕ) (batch : Batch) (sc : Scheduler)
    → has i (map (λ e. e.seq) batch.entries) ≡ true
    → count i (ids sc.running) ≤ 1
    → step_complete now batch toks (abort_request i sc) ≡ none
unfolding step_complete abort_request abort_in
step_complete_after_abort now i toks batch sc in_batch once =
    let gone : count i (ids (abort_request i sc).running) ≡ 0 =
      elim (Option-cases (find_seq i sc.running)) [
        | inl none_here ↦
            rw (none_here, abort_request, abort_in) (find_seq-none i sc.running none_here)
        | inr (t, here) ↦
            rw (here, abort_request, abort_in) (omega (arith, count-erase i sc.running))
      ] in
    let dangles =
      complete_loop-dangling now i batch.entries toks (abort_request i sc) in_batch gone in
    rw (dangles, step_complete) refl

module _ (i : ℕ) (s : Sequence) where
  -- What the loop and the removal of sequences that are done leave as it is.
  abbrev pub Stays : List Sequence → ℕ → Option Scheduler → Type 0
  Stays queue next none = ⊥
  Stays queue next (some sc) = Parked i s sc.running × (sc.waiting ≡ queue) × (sc.next_id ≡ next)

  pub complete_loop-Stays :
      (now : ℕ) (entries : List BatchEntry) (toks : List ℕ) (sc : Scheduler)
      → IsLive entries sc
      → All (λ e. e.seq ≢ i) entries
      → Parked i s sc.running
      → Stays sc.waiting sc.next_id (complete_loop now entries toks sc)
  unfolding complete_loop
  complete_loop-Stays now [] toks sc live off p = (p, refl, refl)
  complete_loop-Stays now (e ∷ es) toks sc live off p =
      elim (Option-cases (find_seq e.seq sc.running)) [
        | inl gone ↦ absurd (omega (arith, live.0, find_seq-none e.seq sc.running gone))
        | inr (t, here) ↦
            let t_id = find_seq-id e.seq sc.running t here in
            elim (Bool-cases e.is_prefill) [
              | inl pf ↦
                  let u = prefilled e.n_tokens t in
                  let u_id = prefilled-id e.n_tokens t in
                  let sc1 = record sc { running = put_seq u sc.running } in
                  rw (here, pf, complete_loop)
                    (complete_loop-Stays now es toks sc1 (IsLive-put u es sc sc1 refl live.1) off.1
                      (Parked-put i s u sc.running (λ same. off.0 (sym t_id ∙ sym u_id ∙ same)) p))
              | inr dc ↦
                  let tok = next_token toks in
                  let u = (decoded tok t).0 in
                  let u_id = decoded-id tok t in
                  let sc1 = complete_decode now tok t sc in
                  let running1 = complete_decode-running now tok t sc in
                  let p1 : Parked i s sc1.running =
                    subst (Parked i s) (sym running1) (
                      Parked-put i s u sc.running (λ same. off.0 (sym t_id ∙ sym u_id ∙ same)) p) in
                  let rest =
                    complete_loop-Stays now es (rest_tokens toks) sc1
                      (IsLive-put u es sc sc1 running1 live.1) off.1 p1 in
                  let same = complete_decode-waiting now tok t sc in
                  rw (here, dc, complete_loop)
                    (subst (λ q. Stays q sc.next_id (complete_loop now es (rest_tokens toks) sc1))
                      same.0
                      (subst
                        (λ n. Stays sc1.waiting n (complete_loop now es (rest_tokens toks) sc1))
                        same.1 rest))
            ]
      ]

  pub still_running-found :
      (ss : List Sequence)
      → is_done s ≡ false
      → find_seq i ss ≡ some s
      → All (λ t. t.id ≡ i → t ≡ s) ss
      → find_seq i (still_running ss) ≡ some s
  still_running-found [] live e h = grind arith
  still_running-found (x ∷ ss) live e h = elim (Bool-cases (x.id == i)) [
    | inl same ↦
        let x_is : x ≡ s = h.0 ((==_iff x.id i).0 same) in
        let x_live : is_done x ≡ false = ap is_done x_is ∙ live in rw (x_live, same) (ap some x_is)
    | inr other ↦
        let e' : find_seq i ss ≡ some s = rw other at e in
        let ih = still_running-found ss live e' h.1 in
        elim (Bool-cases (is_done x)) [ inl d ↦ rw d ih | inr d ↦ rw (d, other) ih ]
  ]

  pub still_running-only :
      (ss : List Sequence)
      → All (λ t. t.id ≡ i → t ≡ s) ss
      → All (λ t. t.id ≡ i → t ≡ s) (still_running ss)
  still_running-only [] h = tt
  still_running-only (x ∷ ss) h = elim (Bool-cases (is_done x)) [
    | inl d ↦ rw d (still_running-only ss h.1)
    | inr d ↦ rw d (h.0, still_running-only ss h.1)
  ]
