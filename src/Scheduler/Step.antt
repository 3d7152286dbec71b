-- ===== src/Scheduler/Step.antt =====
-- `Scheduler::schedule` of src/scheduler.cpp and its helpers: the batch of one step.
use amp.Prelude.{
  ℕ, ◌+◌, ◌-◌, Bool, true, false, List, [], ◌∷◌, ◌++◌, none, some, if◌then◌else◌, length, ltb, ◌==◌,
  min,
}
use amp.PoolFast
use amp.Scheduler.Data.{
  SeqState, Sequence, Batch, Scheduler, remaining_prefill, find_seq, put_seq, unsnoc, u64,
}
use amp.Scheduler.Pages.{try_alloc_pages, preempt_sequence}

-- A promotion: the pool after the request for its first pages, and the sequence among those that run.
abbrev pub promote_front : ℕ → Sequence → Scheduler → Scheduler
promote_front now front sc =
    let t = try_alloc_pages sc.cfg now front sc.cfg.kv_page_size_tokens sc.kv_pool in
    record sc {
      kv_pool = t.pool;
      running = sc.running ++ record (t.seq) { state = SeqState.prefill } ∷ [];
    }

-- The loop of `promote_waiting`, over the waiting queue.
unfoldable pub promote : ℕ → List Sequence → Scheduler → Scheduler
promote now [] sc = record sc { waiting = [] }
promote now (front ∷ rest) sc =
    let t = try_alloc_pages sc.cfg now front sc.cfg.kv_page_size_tokens sc.kv_pool in
    let next = promote now rest (promote_front now front sc) in
    if ltb (length sc.running) sc.cfg.max_seqs_running
    then (if t.ok then next else record sc { kv_pool = t.pool; waiting = front ∷ rest })
    else record sc { waiting = front ∷ rest }

-- `Scheduler::promote_waiting`
unfoldable pub promote_waiting : ℕ → Scheduler → Scheduler
unfolding promote
promote_waiting now sc = promote now sc.waiting sc

-- The locals of `schedule`, with the scheduler.
pub record Work : Type 0 where
  pub sc : Scheduler
  pub batch : Batch
  pub tokens_budget : ℕ
  pub decode_seqs : List ℕ

abbrev pub is_prefill_state : SeqState → Bool
is_prefill_state SeqState.prefill = true
is_prefill_state _ = false

abbrev pub is_decode_state : SeqState → Bool
is_decode_state SeqState.decode = true
is_decode_state _ = false

-- The loop that collects the sequences of one kind.
abbrev pub seqs_in : (SeqState → Bool) → List Sequence → List ℕ
seqs_in kind [] = []
seqs_in kind (s ∷ ss) = let rest = seqs_in kind ss in if kind s.state then s.id ∷ rest else rest

-- A prefill entry of `chunk` tokens for `s`, whose pages have been found.
unfoldable pub push_prefill : Sequence → ℕ → PoolFast.Pool → Work → Work
push_prefill s chunk pool w = record w {
  sc = record (w.sc) { kv_pool = pool; running = put_seq s w.sc.running };
  batch = record (w.batch) {
    entries =
        w.batch.entries
        ++ record {
          seq = s.id;
          n_tokens = chunk;
          is_prefill = true;
          prefill_start = s.prefill_cursor;
        }
          ∷ [];
    total_tokens = w.batch.total_tokens + chunk;
    n_prefill = w.batch.n_prefill + 1;
  };
  tokens_budget = w.tokens_budget - chunk;
}

-- `preempt_sequence(*v)`, with the counters.
unfoldable pub preempt : Sequence → PoolFast.Pool → Work → Work
preempt v pool w =
    let r = preempt_sequence v pool in
    record w {
      sc = record (w.sc) {
        kv_pool = r.0;
        running = put_seq (r.1) w.sc.running;
        preemptions = u64 (w.sc.preemptions + 1);
      };
      batch = record (w.batch) { n_preempted = w.batch.n_preempted + 1 };
    }

-- Out of pages for a prefill: preempt the last decoding sequence and try again.
unfoldable pub prefill_retry : ℕ → Sequence → ℕ → PoolFast.Pool → Work → Work
unfolding push_prefill preempt
prefill_retry now s chunk pool w = elim (unsnoc w.decode_seqs) [
  | none ↦ record w { sc = record (w.sc) { kv_pool = pool } }
  | some (front, last) ↦ elim (find_seq last w.sc.running) [
    | none ↦ record w { sc = record (w.sc) { kv_pool = pool } }
    | some v ↦
        let w' = record (preempt v pool w) { decode_seqs = front } in
        let t = try_alloc_pages w.sc.cfg now s chunk w'.sc.kv_pool in
        if t.ok
        then push_prefill t.seq chunk t.pool w'
        else record w' { sc = record (w'.sc) { kv_pool = t.pool } }
  ]
]

-- The body of the prefill loop for the sequence `s`.
unfoldable pub prefill_seq : ℕ → Sequence → Work → Work
unfolding push_prefill prefill_retry
prefill_seq now s w =
    let chunk =
      min (min (remaining_prefill s) w.sc.cfg.max_prefill_tokens_per_step) w.tokens_budget in
    let t = try_alloc_pages w.sc.cfg now s chunk w.sc.kv_pool in
    if chunk == 0
    then w
    else (if t.ok then push_prefill t.seq chunk t.pool w else prefill_retry now s chunk t.pool w)

-- A pointer that `schedule` has just collected is not dangling: `none` is never reached.
unfoldable pub prefill_one : ℕ → ℕ → Work → Work
unfolding prefill_seq
prefill_one now i w = elim (find_seq i w.sc.running) [ none ↦ w | some s ↦ prefill_seq now s w ]

unfoldable pub prefill_loop : ℕ → List ℕ → Work → Work
unfolding prefill_one
prefill_loop now [] w = w
prefill_loop now (i ∷ is) w =
    let rest = prefill_loop now is (prefill_one now i w) in if w.tokens_budget == 0 then w else rest

-- A decode entry of one token for `s`.
unfoldable pub push_decode : Sequence → PoolFast.Pool → Work → Work
push_decode s pool w = record w {
  sc = record (w.sc) { kv_pool = pool; running = put_seq s w.sc.running };
  batch = record (w.batch) {
    entries =
        w.batch.entries
        ++ record { seq = s.id; n_tokens = 1; is_prefill = false; prefill_start = 0 } ∷ [];
    total_tokens = w.batch.total_tokens + 1;
    n_decode = w.batch.n_decode + 1;
  };
  tokens_budget = w.tokens_budget - 1;
}

-- The body of the decode loop for the sequence `s`.
unfoldable pub decode_seq : ℕ → Sequence → Work → Work
unfolding push_decode preempt
decode_seq now s w =
    let t = try_alloc_pages w.sc.cfg now s 1 w.sc.kv_pool in
    if t.ok then push_decode t.seq t.pool w else preempt s t.pool w

unfoldable pub decode_one : ℕ → ℕ → Work → Work
unfolding decode_seq
decode_one now i w = elim (find_seq i w.sc.running) [ none ↦ w | some s ↦ decode_seq now s w ]

unfoldable pub decode_loop : ℕ → List ℕ → Work → Work
unfolding decode_one
decode_loop now [] w = w
decode_loop now (i ∷ is) w =
    let rest = decode_loop now is (decode_one now i w) in if w.tokens_budget == 0 then w else rest

abbrev pub empty_batch : Batch
empty_batch = record {
  entries = [];
  total_tokens = 0;
  n_prefill = 0;
  n_decode = 0;
  n_preempted = 0;
}

-- The locals of `schedule` before its loops, with the waiting sequences promoted.
abbrev pub begin : Scheduler → Work
begin sc = record {
  sc = sc;
  batch = empty_batch;
  tokens_budget = sc.cfg.max_batch_tokens;
  decode_seqs = seqs_in is_decode_state sc.running;
}

-- The two loops of `schedule`.
unfoldable pub build : ℕ → Scheduler → Work
unfolding prefill_loop decode_loop
build now sc =
    let w = prefill_loop now (seqs_in is_prefill_state sc.running) (begin sc) in
    decode_loop now w.decode_seqs w

-- `Scheduler::schedule`
unfoldable pub schedule : ℕ → Scheduler → Scheduler × Batch
unfolding promote_waiting build
schedule now sc = let w = build now (promote_waiting now sc) in (w.sc, w.batch)
