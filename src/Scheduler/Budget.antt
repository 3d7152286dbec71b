-- ===== src/Scheduler/Budget.antt =====
-- The token budget of `Scheduler::schedule` (src/scheduler.cpp).
use amp.Prelude.{
  ℕ, ◌+◌, ◌≤◌, ◌<◌, ◌≡◌, refl, ap, true, false, List, [], ◌∷◌, if◌then◌else◌, length, ◌==◌, min,
  total, arith, inl, inr, Bool-cases, Option-cases, length-append, total-append, All, All-snoc,
}
use amp.PoolFast
use amp.Scheduler.Data.{
  Sequence, Config, BatchEntry, Scheduler, remaining_prefill, find_seq, unsnoc,
}
use amp.Scheduler.Pages.{try_alloc_pages}
use amp.Scheduler.Step.{
  Work, promote, promote_front, promote_waiting, push_prefill, preempt, prefill_retry, prefill_seq,
  prefill_one, prefill_loop, push_decode, decode_seq, decode_one, decode_loop, begin, build,
  schedule, seqs_in, is_prefill_state,
}

-- A prefill entry has a token at least and the step's limit at most; a decode entry has one.
abbrev pub Sound : Config → BatchEntry → Type 0
Sound cfg e =
    (0 < e.n_tokens) × (e.n_tokens ≤ (if e.is_prefill then cfg.max_prefill_tokens_per_step else 1))

abbrev pub entry_tokens : BatchEntry → ℕ
entry_tokens e = e.n_tokens

pub record Balanced (cfg : Config) (cap : ℕ) (w : Work) : Type 0 where
  pub config : w.sc.cfg ≡ cfg
  pub spent : w.batch.total_tokens + w.tokens_budget ≡ cap
  pub summed : w.batch.total_tokens ≡ total entry_tokens w.batch.entries
  pub counted : w.batch.n_prefill + w.batch.n_decode ≡ length w.batch.entries
  pub sound : All (Sound cfg) w.batch.entries

module _ (cfg : Config) (cap : ℕ) where
  push_prefill-Balanced :
      (s : Sequence) (chunk : ℕ) (pool : PoolFast.Pool) (w : Work)
      → 0 < chunk
      → chunk ≤ w.tokens_budget
      → chunk ≤ cfg.max_prefill_tokens_per_step
      → Balanced cfg cap w
      → Balanced cfg cap (push_prefill s chunk pool w)
  unfolding push_prefill
  push_prefill-Balanced s chunk pool w pos fits small b =
      let e : BatchEntry = record {
        seq = s.id;
        n_tokens = chunk;
        is_prefill = true;
        prefill_start = s.prefill_cursor;
      } in
      record {
        config = b.config;
        spent = omega (arith, b.spent);
        summed = omega (arith, b.summed, total-append entry_tokens w.batch.entries (e ∷ []));
        counted = omega (arith, b.counted, length-append w.batch.entries (e ∷ []));
        sound = All-snoc (Sound cfg) w.batch.entries e b.sound (pos, small);
      }

  push_decode-Balanced :
      (s : Sequence) (pool : PoolFast.Pool) (w : Work)
      → 0 < w.tokens_budget
      → Balanced cfg cap w
      → Balanced cfg cap (push_decode s pool w)
  unfolding push_decode
  push_decode-Balanced s pool w fits b =
      let e : BatchEntry = record {
        seq = s.id;
        n_tokens = 1;
        is_prefill = false;
        prefill_start = 0;
      } in
      record {
        config = b.config;
        spent = omega (arith, b.spent);
        summed = omega (arith, b.summed, total-append entry_tokens w.batch.entries (e ∷ []));
        counted = omega (arith, b.counted, length-append w.batch.entries (e ∷ []));
        sound = All-snoc (Sound cfg) w.batch.entries e b.sound (omega arith, omega arith);
      }

  preempt-Balanced :
      (v : Sequence) (pool : PoolFast.Pool) (w : Work)
      → Balanced cfg cap w
      → Balanced cfg cap (preempt v pool w) × ((preempt v pool w).tokens_budget ≡ w.tokens_budget)
  unfolding preempt
  preempt-Balanced v pool w b = (
    record {
      config = b.config;
      spent = b.spent;
      summed = b.summed;
      counted = b.counted;
      sound = b.sound;
    },
    refl,
  )

  -- Neither the pool nor the list of decoding sequences matters.
  moved-Balanced :
      (pool : PoolFast.Pool) (decodes : List ℕ) (w : Work)
      → Balanced cfg cap w
      → Balanced cfg cap (record w { sc = record (w.sc) { kv_pool = pool }; decode_seqs = decodes })
  moved-Balanced pool decodes w b = record {
    config = b.config;
    spent = b.spent;
    summed = b.summed;
    counted = b.counted;
    sound = b.sound;
  }

  prefill_retry-Balanced :
      (now : ℕ) (s : Sequence) (chunk : ℕ) (pool : PoolFast.Pool) (w : Work)
      → 0 < chunk
      → chunk ≤ w.tokens_budget
      → chunk ≤ cfg.max_prefill_tokens_per_step
      → Balanced cfg cap w
      → Balanced cfg cap (prefill_retry now s chunk pool w)
  unfolding prefill_retry
  prefill_retry-Balanced now s chunk pool w pos fits small b =
      elim (Option-cases (unsnoc w.decode_seqs)) [
        | inl e ↦ rw (e, prefill_retry) (moved-Balanced pool w.decode_seqs w b)
        | inr ((front, last), e) ↦ elim (Option-cases (find_seq last w.sc.running)) [
          | inl f ↦ rw (e, f, prefill_retry) (moved-Balanced pool w.decode_seqs w b)
          | inr (v, f) ↦
              let (p, same) = preempt-Balanced v pool w b in
              let w' = record (preempt v pool w) { decode_seqs = front } in
              let b' = moved-Balanced (preempt v pool w).sc.kv_pool front (preempt v pool w) p in
              let t = try_alloc_pages w.sc.cfg now s chunk w'.sc.kv_pool in
              elim (Bool-cases t.ok) [
                | inl got ↦
                    rw (e, f, got, prefill_retry)
                      (push_prefill-Balanced t.seq chunk t.pool w' pos (omega arith) small b')
                | inr bad ↦ rw (e, f, bad, prefill_retry) (moved-Balanced t.pool front w' b')
              ]
        ]
      ]

  prefill_seq-Balanced :
      (now : ℕ) (s : Sequence) (w : Work)
      → Balanced cfg cap w
      → Balanced cfg cap (prefill_seq now s w)
  unfolding prefill_seq
  prefill_seq-Balanced now s w b =
      let chunk =
        min (min (remaining_prefill s) w.sc.cfg.max_prefill_tokens_per_step) w.tokens_budget in
      let t = try_alloc_pages w.sc.cfg now s chunk w.sc.kv_pool in
      let small : chunk ≤ cfg.max_prefill_tokens_per_step = ground (arith, b.config) in
      elim (Bool-cases (chunk == 0)) [
        | inl nothing ↦ rw (nothing, prefill_seq) b
        | inr some_tokens ↦ elim (Bool-cases t.ok) [
          | inl got ↦
              rw (some_tokens, got, prefill_seq)
                (push_prefill-Balanced t.seq chunk t.pool w (ground arith) (omega arith) small b)
          | inr bad ↦
              rw (some_tokens, bad, prefill_seq)
                (prefill_retry-Balanced now s chunk t.pool w (ground arith) (omega arith) small b)
        ]
      ]

  prefill_one-Balanced :
      (now i : ℕ) (w : Work) → Balanced cfg cap w → Balanced cfg cap (prefill_one now i w)
  unfolding prefill_one
  prefill_one-Balanced now i w b = elim (Option-cases (find_seq i w.sc.running)) [
    | inl e ↦ rw (e, prefill_one) b
    | inr (s, e) ↦ rw (e, prefill_one) (prefill_seq-Balanced now s w b)
  ]

  prefill_loop-Balanced :
      (now : ℕ) (is : List ℕ) (w : Work)
      → Balanced cfg cap w
      → Balanced cfg cap (prefill_loop now is w)
  unfolding prefill_loop
  prefill_loop-Balanced now [] w b = b
  prefill_loop-Balanced now (i ∷ is) w b = elim (Bool-cases (w.tokens_budget == 0)) [
    | inl spent ↦ rw (spent, prefill_loop) b
    | inr more ↦
        rw (more, prefill_loop)
          (prefill_loop-Balanced now is (prefill_one now i w) (prefill_one-Balanced now i w b))
  ]

  decode_seq-Balanced :
      (now : ℕ) (s : Sequence) (w : Work)
      → 0 < w.tokens_budget
      → Balanced cfg cap w
      → Balanced cfg cap (decode_seq now s w)
  unfolding decode_seq
  decode_seq-Balanced now s w pos b =
      let t = try_alloc_pages w.sc.cfg now s 1 w.sc.kv_pool in
      elim (Bool-cases t.ok) [
        | inl got ↦ rw (got, decode_seq) (push_decode-Balanced t.seq t.pool w pos b)
        | inr bad ↦ rw (bad, decode_seq) (preempt-Balanced s t.pool w b).0
      ]

  decode_one-Balanced :
      (now i : ℕ) (w : Work)
      → 0 < w.tokens_budget
      → Balanced cfg cap w
      → Balanced cfg cap (decode_one now i w)
  unfolding decode_one
  decode_one-Balanced now i w pos b = elim (Option-cases (find_seq i w.sc.running)) [
    | inl e ↦ rw (e, decode_one) b
    | inr (s, e) ↦ rw (e, decode_one) (decode_seq-Balanced now s w pos b)
  ]

  decode_loop-Balanced :
      (now : ℕ) (is : List ℕ) (w : Work)
      → Balanced cfg cap w
      → Balanced cfg cap (decode_loop now is w)
  unfolding decode_loop
  decode_loop-Balanced now [] w b = b
  decode_loop-Balanced now (i ∷ is) w b = elim (Bool-cases (w.tokens_budget == 0)) [
    | inl spent ↦ rw (spent, decode_loop) b
    | inr more ↦
        rw (more, decode_loop)
          (decode_loop-Balanced now is (decode_one now i w)
            (decode_one-Balanced now i w (ground arith) b))
  ]

promote-cfg :
    (now : ℕ) (queue : List Sequence) (sc : Scheduler) → (promote now queue sc).cfg ≡ sc.cfg
unfolding promote
promote-cfg now [] sc = refl
promote-cfg now (front ∷ rest) sc =
    ground (arith, promote-cfg now rest (promote_front now front sc))

-- The batch of a step stays within the token budget, and its totals are those of its entries: the
-- tokens add up, each entry is a prefill or a decode entry, a prefill entry has at least one token
-- and at most the limit of a step, and a decode entry has one.
pub schedule-IsWithinBudget :
    (now : ℕ) (sc : Scheduler)
    → let batch = (schedule now sc).1 in
      (batch.total_tokens ≤ sc.cfg.max_batch_tokens)
      × (batch.total_tokens ≡ total entry_tokens batch.entries)
      × (batch.n_prefill + batch.n_decode ≡ length batch.entries)
      × All (Sound sc.cfg) batch.entries
unfolding schedule build promote_waiting
schedule-IsWithinBudget now sc =
    let q = promote now sc.waiting sc in
    let same = promote-cfg now sc.waiting sc in
    let w = prefill_loop now (seqs_in is_prefill_state q.running) (begin q) in
    let start : Balanced sc.cfg sc.cfg.max_batch_tokens (begin q) = record {
      config = same;
      spent = omega (arith, ap (λ c. c.max_batch_tokens) same);
      summed = refl;
      counted = refl;
      sound = tt;
    } in
    let b =
      decode_loop-Balanced sc.cfg sc.cfg.max_batch_tokens now w.decode_seqs w
        (prefill_loop-Balanced sc.cfg sc.cfg.max_batch_tokens now _ (begin q) start) in
    (omega (arith, b.spent), b.summed, b.counted, b.sound)
