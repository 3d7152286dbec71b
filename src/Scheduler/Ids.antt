-- ===== src/Scheduler/Ids.antt =====
-- The ids of the sequences that run, through `Scheduler::schedule` (src/scheduler.cpp): no sequence
-- is lost or made twice, and each entry of the batch points to one that runs.
use amp.Prelude.{
  ℕ, ◌+◌, ◌-◌, ◌≤◌, ◌<◌, ◌≡◌, refl, sym, ap, ◌∙◌, List, [], ◌∷◌, ◌++◌, none, some, length, ltb,
  ◌==◌, min, max, arith, inl, inr, Bool-cases, Option-cases, All, All-snoc, ==_iff, count, bit,
  length-append, length-map, subst,
}
use amp.PoolFast
use amp.Scheduler.Data.{
  SeqState, Sequence, Scheduler, remaining_prefill, find_seq, put_seq, erase_seq, unsnoc, ids,
}
use amp.Scheduler.Pages.{try_alloc_pages}
use amp.Scheduler.Step.{
  Work, promote, promote_front, promote_waiting, push_prefill, preempt, prefill_retry, prefill_seq,
  prefill_one, prefill_loop, push_decode, decode_seq, decode_one, decode_loop, begin, build,
  schedule, seqs_in, is_prefill_state,
}
use amp.Scheduler.Parked.{find_seq-id, try_alloc_pages-id}

pub ids-put : (t : Sequence) (ss : List Sequence) → ids (put_seq t ss) ≡ ids ss
ids-put t [] = refl
ids-put t (x ∷ ss) = elim (Bool-cases (x.id == t.id)) [
  | inl e ↦
      let same : x.id ≡ t.id = (==_iff x.id t.id).0 e in rw e (ap (λ j. j ∷ ids ss) (sym same))
  | inr e ↦ rw e (ap (λ js. x.id ∷ js) (ids-put t ss))
]

pub find_seq-some :
    (i : ℕ) (ss : List Sequence) (t : Sequence) → find_seq i ss ≡ some t → 0 < count i (ids ss)
find_seq-some i [] t e = grind arith
find_seq-some i (x ∷ ss) t e = ground (arith, find_seq-some i ss t)

pub find_seq-none : (i : ℕ) (ss : List Sequence) → find_seq i ss ≡ none → count i (ids ss) ≡ 0
find_seq-none i [] e = refl
find_seq-none i (x ∷ ss) e = ground (arith, find_seq-none i ss)

pub count-erase :
    (i : ℕ) (ss : List Sequence) → count i (ids (erase_seq i ss)) ≡ count i (ids ss) - 1
count-erase i [] = refl
count-erase i (x ∷ ss) = ground (arith, count-erase i ss)

pub ids-snoc :
    (i : ℕ) (ss : List Sequence) (t : Sequence)
    → count i (ids (ss ++ t ∷ [])) ≡ count i (ids ss) + bit (t.id == i)
ids-snoc i [] t = omega arith
ids-snoc i (x ∷ ss) t = omega (arith, ids-snoc i ss t)

-- The sequences with the id `i` that wait or run.
abbrev pub standing : ℕ → Scheduler → ℕ
standing i sc = count i (ids sc.waiting) + count i (ids sc.running)

promote-standing :
    (i now : ℕ) (queue : List Sequence) (sc : Scheduler)
    → standing i (promote now queue sc) ≡ count i (ids queue) + count i (ids sc.running)
unfolding promote
promote-standing i now [] sc = refl
promote-standing i now (t ∷ queue) sc =
    let r = try_alloc_pages sc.cfg now t sc.cfg.kv_page_size_tokens sc.kv_pool in
    let same = try_alloc_pages-id sc.cfg now t sc.cfg.kv_page_size_tokens sc.kv_pool in
    let after = promote-standing i now queue (promote_front now t sc) in
    let snoc = ids-snoc i sc.running (record (r.seq) { state = SeqState.prefill }) in
    let moved : bit (r.seq.id == i) ≡ bit (t.id == i) = ap (λ j. bit (j == i)) same in
    elim (Bool-cases (ltb (length sc.running) sc.cfg.max_seqs_running)) [
      | inl room ↦ elim (Bool-cases r.ok) [
        | inl got ↦ rw (room, got, promote) (omega (arith, after, snoc, moved))
        | inr bad ↦ rw (room, bad, promote) refl
      ]
      | inr full ↦ rw (full, promote) refl
    ]

promote-room :
    (now : ℕ) (queue : List Sequence) (sc : Scheduler)
    → length (promote now queue sc).running ≤ max sc.cfg.max_seqs_running (length sc.running)
unfolding promote
promote-room now [] sc = omega arith
promote-room now (t ∷ queue) sc =
    let r = try_alloc_pages sc.cfg now t sc.cfg.kv_page_size_tokens sc.kv_pool in
    let after = promote-room now queue (promote_front now t sc) in
    let snoc = length-append sc.running (record (r.seq) { state = SeqState.prefill } ∷ []) in
    elim (Bool-cases (ltb (length sc.running) sc.cfg.max_seqs_running)) [
      | inl room ↦ elim (Bool-cases r.ok) [
        | inl got ↦ rw (room, got, promote) (ground (arith, after, snoc))
        | inr bad ↦ rw (room, bad, promote) (omega arith)
      ]
      | inr full ↦ rw (full, promote) (omega arith)
    ]

module _ (running : List ℕ) (queue : List Sequence) where
  -- The ids that run and the queue stay, and the entries point to ids that run.
  record Pointing (w : Work) : Type 0 where
    here : ids w.sc.running ≡ running
    queued : w.sc.waiting ≡ queue
    entries : All (λ e. 0 < count e.seq running) w.batch.entries

  push_prefill-Pointing :
      (t : Sequence) (chunk : ℕ) (pool : PoolFast.Pool) (w : Work)
      → 0 < count t.id running
      → Pointing w
      → Pointing (push_prefill t chunk pool w)
  unfolding push_prefill
  push_prefill-Pointing t chunk pool w runs p = record {
    here = ids-put t w.sc.running ∙ p.here;
    queued = p.queued;
    entries = All-snoc (λ e. 0 < count e.seq running) w.batch.entries _ p.entries runs;
  }

  push_decode-Pointing :
      (t : Sequence) (pool : PoolFast.Pool) (w : Work)
      → 0 < count t.id running
      → Pointing w
      → Pointing (push_decode t pool w)
  unfolding push_decode
  push_decode-Pointing t pool w runs p = record {
    here = ids-put t w.sc.running ∙ p.here;
    queued = p.queued;
    entries = All-snoc (λ e. 0 < count e.seq running) w.batch.entries _ p.entries runs;
  }

  preempt-Pointing :
      (v : Sequence) (pool : PoolFast.Pool) (w : Work) → Pointing w → Pointing (preempt v pool w)
  unfolding preempt
  preempt-Pointing v pool w p = record {
    here = ids-put _ w.sc.running ∙ p.here;
    queued = p.queued;
    entries = p.entries;
  }

  moved-Pointing :
      (pool : PoolFast.Pool) (decodes : List ℕ) (w : Work)
      → Pointing w
      → Pointing (record w { sc = record (w.sc) { kv_pool = pool }; decode_seqs = decodes })
  moved-Pointing pool decodes w p = record { here = p.here; queued = p.queued; entries = p.entries }

  prefill_retry-Pointing :
      (now : ℕ) (t : Sequence) (chunk : ℕ) (pool : PoolFast.Pool) (w : Work)
      → 0 < count t.id running
      → Pointing w
      → Pointing (prefill_retry now t chunk pool w)
  unfolding prefill_retry
  prefill_retry-Pointing now t chunk pool w runs p = elim (Option-cases (unsnoc w.decode_seqs)) [
    | inl e ↦ rw (e, prefill_retry) (moved-Pointing pool w.decode_seqs w p)
    | inr ((front, last), e) ↦ elim (Option-cases (find_seq last w.sc.running)) [
      | inl f ↦ rw (e, f, prefill_retry) (moved-Pointing pool w.decode_seqs w p)
      | inr (v, f) ↦
          let q = preempt v pool w in
          let w' = record q { decode_seqs = front } in
          let p' = moved-Pointing q.sc.kv_pool front q (preempt-Pointing v pool w p) in
          let r = try_alloc_pages w.sc.cfg now t chunk w'.sc.kv_pool in
          let same = try_alloc_pages-id w.sc.cfg now t chunk w'.sc.kv_pool in
          elim (Bool-cases r.ok) [
            | inl got ↦
                rw (e, f, got, prefill_retry)
                  (push_prefill-Pointing r.seq chunk r.pool w'
                    (omega (arith, runs, ap (λ j. count j running) same)) p')
            | inr bad ↦ rw (e, f, bad, prefill_retry) (moved-Pointing r.pool front w' p')
          ]
    ]
  ]

  prefill_one-Pointing : (now j : ℕ) (w : Work) → Pointing w → Pointing (prefill_one now j w)
  unfolding prefill_one prefill_seq
  prefill_one-Pointing now j w p = elim (Option-cases (find_seq j w.sc.running)) [
    | inl e ↦ rw (e, prefill_one) p
    | inr (t, e) ↦
        let chunk =
          min (min (remaining_prefill t) w.sc.cfg.max_prefill_tokens_per_step) w.tokens_budget in
        let r = try_alloc_pages w.sc.cfg now t chunk w.sc.kv_pool in
        let same = try_alloc_pages-id w.sc.cfg now t chunk w.sc.kv_pool in
        let t_id = find_seq-id j w.sc.running t e in
        let runs : 0 < count t.id running = omega (
          arith,
          find_seq-some j w.sc.running t e,
          ap (λ l. count j l) p.here,
          ap (λ j. count j running) t_id,
        ) in
        elim (Bool-cases (chunk == 0)) [
          | inl nothing ↦ rw (e, nothing, prefill_one, prefill_seq) p
          | inr some_tokens ↦ elim (Bool-cases r.ok) [
            | inl got ↦
                rw (e, some_tokens, got, prefill_one, prefill_seq)
                  (push_prefill-Pointing r.seq chunk r.pool w
                    (omega (arith, runs, ap (λ j. count j running) same)) p)
            | inr bad ↦
                rw (e, some_tokens, bad, prefill_one, prefill_seq)
                  (prefill_retry-Pointing now t chunk r.pool w runs p)
          ]
        ]
  ]

  prefill_loop-Pointing :
      (now : ℕ) (js : List ℕ) (w : Work) → Pointing w → Pointing (prefill_loop now js w)
  unfolding prefill_loop
  prefill_loop-Pointing now [] w p = p
  prefill_loop-Pointing now (j ∷ js) w p = elim (Bool-cases (w.tokens_budget == 0)) [
    | inl e ↦ rw (e, prefill_loop) p
    | inr e ↦
        rw (e, prefill_loop)
          (prefill_loop-Pointing now js (prefill_one now j w) (prefill_one-Pointing now j w p))
  ]

  decode_one-Pointing : (now j : ℕ) (w : Work) → Pointing w → Pointing (decode_one now j w)
  unfolding decode_one decode_seq
  decode_one-Pointing now j w p = elim (Option-cases (find_seq j w.sc.running)) [
    | inl e ↦ rw (e, decode_one) p
    | inr (t, e) ↦
        let t_id = find_seq-id j w.sc.running t e in
        let r = try_alloc_pages w.sc.cfg now t 1 w.sc.kv_pool in
        let same = try_alloc_pages-id w.sc.cfg now t 1 w.sc.kv_pool in
        let runs : 0 < count t.id running = omega (
          arith,
          find_seq-some j w.sc.running t e,
          ap (λ l. count j l) p.here,
          ap (λ j. count j running) t_id,
        ) in
        elim (Bool-cases r.ok) [
          | inl got ↦
              rw (e, got, decode_one, decode_seq)
                (push_decode-Pointing r.seq r.pool w
                  (omega (arith, runs, ap (λ j. count j running) same)) p)
          | inr bad ↦ rw (e, bad, decode_one, decode_seq) (preempt-Pointing t r.pool w p)
        ]
  ]

  decode_loop-Pointing :
      (now : ℕ) (js : List ℕ) (w : Work) → Pointing w → Pointing (decode_loop now js w)
  unfolding decode_loop
  decode_loop-Pointing now [] w p = p
  decode_loop-Pointing now (j ∷ js) w p = elim (Bool-cases (w.tokens_budget == 0)) [
    | inl e ↦ rw (e, decode_loop) p
    | inr e ↦
        rw (e, decode_loop)
          (decode_loop-Pointing now js (decode_one now j w) (decode_one-Pointing now j w p))
  ]

-- `schedule` loses no sequence and makes none twice, whichever it promotes or preempts; it lets no
-- more run than the limit or than ran before; and each entry of the batch points to one that runs.
pub schedule_conserves :
    (now : ℕ) (sc : Scheduler)
    → let r = schedule now sc in
      ((i : ℕ) → standing i r.0 ≡ standing i sc)
      × (length r.0.running ≤ max sc.cfg.max_seqs_running (length sc.running))
      × All (λ e. 0 < count e.seq (ids r.0.running)) r.1.entries
unfolding schedule build promote_waiting
schedule_conserves now sc =
    let q = promote now sc.waiting sc in
    let start : Pointing (ids q.running) q.waiting (begin q) = record {
      here = refl;
      queued = refl;
      entries = tt;
    } in
    let w = prefill_loop now (seqs_in is_prefill_state q.running) (begin q) in
    let p =
      decode_loop-Pointing (ids q.running) q.waiting now w.decode_seqs w
        (prefill_loop-Pointing (ids q.running) q.waiting now _ (begin q) start) in
    let v = decode_loop now w.decode_seqs w in
    (
      λ i. omega (
        arith,
        promote-standing i now sc.waiting sc,
        ap (λ l. count i l) p.here,
        ap (λ l. count i (ids l)) p.queued,
      ),
      omega (
        arith,
        promote-room now sc.waiting sc,
        ap length p.here,
        length-map v.sc.running (λ s. s.id),
        length-map q.running (λ s. s.id),
      ),
      subst (λ js. All (λ e. 0 < count e.seq js) v.batch.entries) (sym p.here) p.entries,
    )
