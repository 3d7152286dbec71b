-- ===== src/Scheduler/Stuck.antt =====
-- What `Scheduler::schedule` (src/scheduler.cpp) does around a sequence that has nothing to do.
use amp.Prelude.{
  ℕ, ◌<◌, ◌≡◌, ◌≢◌, refl, sym, ap, ◌∙◌, true, false, List, [], ◌∷◌, some, length, ltb, ◌==◌, min,
  arith, inl, inr, Bool-cases, Option-cases, All, ==_iff,
}
use amp.Scheduler.Data.{Sequence, Scheduler, remaining_prefill, find_seq}
use amp.Scheduler.Pages.{try_alloc_pages}
use amp.Scheduler.Step.{
  Work, promote, promote_front, promote_waiting, prefill_seq, prefill_one, prefill_loop, decode_seq,
  decode_one, decode_loop, begin, build, schedule, seqs_in, is_prefill_state, is_decode_state,
}
use amp.Scheduler.Parked.{
  find_seq-id, try_alloc_pages-id, IsStalled, Parked, Parked-snoc, Other, Kept, push_prefill-Kept,
  push_decode-Kept, preempt-Kept, prefill_retry-Kept, seqs_in-Other, seqs_in-spent,
}

module _ (i : ℕ) (s : Sequence) where
  prefill_seq-Kept :
      (now : ℕ) (t : Sequence) (w : Work)
      → Other i s t
      → Kept i s w
      → Kept i s (prefill_seq now t w)
  unfolding prefill_seq
  prefill_seq-Kept now t w ne k =
      let chunk =
        min (min (remaining_prefill t) w.sc.cfg.max_prefill_tokens_per_step) w.tokens_budget in
      let r = try_alloc_pages w.sc.cfg now t chunk w.sc.kv_pool in
      let same = try_alloc_pages-id w.sc.cfg now t chunk w.sc.kv_pool in
      elim (Bool-cases (chunk == 0)) [
        | inl nothing ↦ rw (nothing, prefill_seq) k
        | inr some_tokens ↦ elim (Bool-cases r.ok) [
          | inl got ↦
              rw (some_tokens, got, prefill_seq)
                (push_prefill-Kept i s r.seq chunk r.pool w (λ e. ne (sym same ∙ e)) k)
          | inr bad ↦
              rw (some_tokens, bad, prefill_seq) (prefill_retry-Kept i s now t chunk r.pool w ne k)
        ]
      ]

  -- The loop comes to `s` itself where it has no token left, and leaves it.
  prefill_seq-spent : (now : ℕ) (w : Work) → remaining_prefill s ≡ 0 → prefill_seq now s w ≡ w
  unfolding prefill_seq
  prefill_seq-spent now w none_left =
      let nothing : (min (min (remaining_prefill s) w.sc.cfg.max_prefill_tokens_per_step)
              w.tokens_budget
            == 0)
          ≡ true =
        ground arith in
      rw (nothing, prefill_seq) refl

  prefill_one-Kept :
      (now j : ℕ) (w : Work)
      → (j ≡ i → remaining_prefill s ≡ 0)
      → Kept i s w
      → Kept i s (prefill_one now j w)
  unfolding prefill_one
  prefill_one-Kept now j w spent k = elim (Option-cases (find_seq j w.sc.running)) [
    | inl e ↦ rw (e, prefill_one) k
    | inr (t, e) ↦ elim (Bool-cases (j == i)) [
      | inl same ↦
          let j_is : j ≡ i = (==_iff j i).0 same in
          let t_is : some t ≡ some s =
            sym e ∙ ap (λ j. find_seq j w.sc.running) j_is ∙ k.parked.found in
          rw (e ∙ t_is, prefill_one) (rw (prefill_seq-spent now w (spent j_is)) k)
      | inr other ↦
          let t_id = find_seq-id j w.sc.running t e in
          rw (e, prefill_one) (prefill_seq-Kept now t w (λ t_is. ground arith) k)
    ]
  ]

  prefill_loop-Kept :
      (now : ℕ) (js : List ℕ) (w : Work)
      → All (λ j. j ≡ i → remaining_prefill s ≡ 0) js
      → Kept i s w
      → Kept i s (prefill_loop now js w)
  unfolding prefill_loop
  prefill_loop-Kept now [] w spent k = k
  prefill_loop-Kept now (j ∷ js) w spent k = elim (Bool-cases (w.tokens_budget == 0)) [
    | inl e ↦ rw (e, prefill_loop) k
    | inr e ↦
        rw (e, prefill_loop)
          (prefill_loop-Kept now js (prefill_one now j w) spent.1
            (prefill_one-Kept now j w spent.0 k))
  ]

  decode_one-Kept : (now j : ℕ) (w : Work) → j ≢ i → Kept i s w → Kept i s (decode_one now j w)
  unfolding decode_one decode_seq
  decode_one-Kept now j w ne k = elim (Option-cases (find_seq j w.sc.running)) [
    | inl e ↦ rw (e, decode_one) k
    | inr (t, e) ↦
        let t_id = find_seq-id j w.sc.running t e in
        let r = try_alloc_pages w.sc.cfg now t 1 w.sc.kv_pool in
        let same = try_alloc_pages-id w.sc.cfg now t 1 w.sc.kv_pool in
        elim (Bool-cases r.ok) [
          | inl got ↦
              rw (e, got, decode_one, decode_seq)
                (push_decode-Kept i s r.seq r.pool w (λ t_is. ne (sym t_id ∙ sym same ∙ t_is)) k)
          | inr bad ↦
              rw (e, bad, decode_one, decode_seq)
                (preempt-Kept i s t r.pool w (λ t_is. ne (sym t_id ∙ t_is)) k)
        ]
  ]

  decode_loop-Kept :
      (now : ℕ) (js : List ℕ) (w : Work)
      → All (λ j. j ≢ i) js
      → Kept i s w
      → Kept i s (decode_loop now js w)
  unfolding decode_loop
  decode_loop-Kept now [] w off k = k
  decode_loop-Kept now (j ∷ js) w off k = elim (Bool-cases (w.tokens_budget == 0)) [
    | inl e ↦ rw (e, decode_loop) k
    | inr e ↦
        rw (e, decode_loop)
          (decode_loop-Kept now js (decode_one now j w) off.1 (decode_one-Kept now j w off.0 k))
  ]

  promote_front-Parked :
      (now : ℕ) (t : Sequence) (sc : Scheduler)
      → Other i s t
      → Parked i s sc.running
      → Parked i s (promote_front now t sc).running
  promote_front-Parked now t sc ne p =
      let same = try_alloc_pages-id sc.cfg now t sc.cfg.kv_page_size_tokens sc.kv_pool in
      Parked-snoc i s _ sc.running (λ e. ne (sym same ∙ e)) p

  promote-Parked :
      (now : ℕ) (queue : List Sequence) (sc : Scheduler)
      → All (Other i s) queue
      → Parked i s sc.running
      → i < sc.next_id
      → Parked i s (promote now queue sc).running
        × All (Other i s) (promote now queue sc).waiting
        × (i < (promote now queue sc).next_id)
  unfolding promote
  promote-Parked now [] sc off p old = (p, tt, old)
  promote-Parked now (t ∷ queue) sc off p old =
      let r = try_alloc_pages sc.cfg now t sc.cfg.kv_page_size_tokens sc.kv_pool in
      elim (Bool-cases (ltb (length sc.running) sc.cfg.max_seqs_running)) [
        | inl room ↦ elim (Bool-cases r.ok) [
          | inl got ↦
              rw (room, got, promote)
                (promote-Parked now queue (promote_front now t sc) off.1
                  (promote_front-Parked now t sc off.0 p) old)
          | inr bad ↦ rw (room, bad, promote) (p, off, old)
        ]
        | inr full ↦ rw (full, promote) (p, off, old)
      ]

  -- A sequence with nothing to do, alone with its id, is left as it is by `schedule`, is in no entry
  -- of the batch, and stays alone with its id.
  pub schedule-Parked :
      (now : ℕ) (sc : Scheduler)
      → IsStalled s
      → All (Other i s) sc.waiting
      → Parked i s sc.running
      → i < sc.next_id
      → let r = schedule now sc in
        Parked i s r.0.running
        × All (Other i s) r.0.waiting
        × (i < r.0.next_id)
        × All (λ e. e.seq ≢ i) r.1.entries
  unfolding schedule build promote_waiting
  schedule-Parked now sc st off p old =
      let q = promote now sc.waiting sc in
      let (p', off', old') = promote-Parked now sc.waiting sc off p old in
      let not_decode : is_decode_state s.state ≡ false = elim st [
        | inl e ↦ ap is_decode_state e
        | inr e ↦ ap is_decode_state e.0
      ] in
      let start : Kept i s (begin q) = record {
        parked = p';
        decodes = seqs_in-Other i s is_decode_state q.running not_decode p'.only;
        entries = tt;
        queued = off';
        issued = old';
      } in
      let w = prefill_loop now (seqs_in is_prefill_state q.running) (begin q) in
      let k = prefill_loop-Kept now _ (begin q) (seqs_in-spent i s q.running st p'.only) start in
      let k' = decode_loop-Kept now w.decode_seqs w k.decodes k in
      (k'.parked, k'.queued, k'.issued, k'.entries)
