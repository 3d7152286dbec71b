-- ===== src/Scheduler/Complete.antt =====
-- The other methods of `Scheduler` in src/scheduler.cpp: requests, the update after a forward
-- pass, and the statistics.
use amp.Prelude.{
  ℕ, ◌+◌, ◌-◌, ◌*◌, Bool, true, false, List, [], ◌∷◌, ◌++◌, Option, none, some, if◌then◌else◌,
  length, ltb, leb, ◌==◌, ◌||◌,
}
use amp.PoolFast
use amp.Scheduler.Data.{
  SeqState, Sequence, Config, BatchEntry, Batch, Scheduler, Stats, is_done, remaining_prefill,
  find_seq, put_seq, erase_seq, u64,
}
use amp.Scheduler.Pages.{free_pages}

-- `Scheduler::Scheduler`; `none` is the exception of the pool's constructor.
unfoldable pub init : (ℕ → Option ℕ) → Config → Option Scheduler
init malloc cfg =
    let pb =
      if ltb 0 cfg.page_bytes then cfg.page_bytes else cfg.kv_page_size_tokens * 32 * 128 * 2 * 2 in
    elim (PoolFast.init malloc cfg.max_pages_total pb 16) [
      | none ↦ none
      | some pool ↦ some (record {
        cfg = cfg;
        kv_pool = pool;
        waiting = [];
        running = [];
        swapped = [];
        next_id = 0;
        total_requests = 0;
        completed = 0;
        preemptions = 0;
        tokens_generated = 0;
        completions = [];
      })
    ]

-- `Scheduler::add_request`: the id, or `none` for the exception of a full queue. The id and the
-- count of requests are taken before the queue is looked at.
unfoldable pub add_request : List ℕ → ℕ → ℕ → Option ℕ → ℕ → Scheduler → Scheduler × Option ℕ
add_request prompt_tokens max_new_tokens temperature eos_token_id now sc =
    let seq : Sequence = record {
      id = sc.next_id;
      prompt = "";
      prompt_tokens = prompt_tokens;
      output_tokens = [];
      max_new_tokens = max_new_tokens;
      temperature = temperature;
      top_p = 0x3f80_0000;
      eos_token_id = eos_token_id;
      state = SeqState.waiting;
      kv_page_ids = [];
      kv_pages_used = 0;
      prefill_cursor = 0;
      prefill_chunk_size = sc.cfg.max_prefill_tokens_per_step;
      enqueue_time = now;
    } in
    let counted = record sc {
      next_id = sc.next_id + 1;
      total_requests = u64 (sc.total_requests + 1);
    } in
    if leb sc.cfg.max_waiting_seqs (length sc.waiting)
    then (counted, none)
    else (record counted { waiting = sc.waiting ++ seq ∷ [] }, some sc.next_id)

-- `abort_in`, on one of the queues: the pool and what is left of the queue.
unfoldable pub abort_in : ℕ → List Sequence → PoolFast.Pool → PoolFast.Pool × List Sequence
abort_in seq_id queue pool = elim (find_seq seq_id queue) [
  | none ↦ (pool, queue)
  | some s ↦ ((free_pages s pool).0, erase_seq seq_id queue)
]

-- `Scheduler::abort_request`
unfoldable pub abort_request : ℕ → Scheduler → Scheduler
unfolding abort_in
abort_request seq_id sc =
    let a = abort_in seq_id sc.waiting sc.kv_pool in
    let b = abort_in seq_id sc.running a.0 in
    let c = abort_in seq_id sc.swapped b.0 in
    record sc { kv_pool = c.0; waiting = a.1; running = b.1; swapped = c.1 }

abbrev pub is_eos : Option ℕ → ℕ → Bool
is_eos none tok = false
is_eos (some eos) tok = tok == eos

-- The next of `new_tokens`, or 0 when they have run out.
abbrev pub next_token : List ℕ → ℕ
next_token [] = 0
next_token (tok ∷ toks) = tok

abbrev pub rest_tokens : List ℕ → List ℕ
rest_tokens [] = []
rest_tokens (tok ∷ toks) = toks

-- The sequence after a prefill entry of `n` tokens.
unfoldable pub prefilled : ℕ → Sequence → Sequence
prefilled n s =
    let s' = record s { prefill_cursor = s.prefill_cursor + n } in
    if remaining_prefill s' == 0 then record s' { state = SeqState.decode } else s'

-- The sequence after a decode entry that gave `tok`, and whether it is done.
unfoldable pub decoded : ℕ → Sequence → Sequence × Bool
decoded tok s =
    let s' = record s { output_tokens = s.output_tokens ++ tok ∷ [] } in
    if leb s.max_new_tokens (length s'.output_tokens) || is_eos s.eos_token_id tok
    then (record s' { state = SeqState.done }, true)
    else (s', false)

-- The body of the loop of `step_complete` for a decode entry of `s`.
unfoldable pub complete_decode : ℕ → ℕ → Sequence → Scheduler → Scheduler
unfolding decoded
complete_decode now tok s sc =
    let d = decoded tok s in
    let sc' = record sc {
      running = put_seq d.0 sc.running;
      tokens_generated = u64 (sc.tokens_generated + 1);
      kv_pool = PoolFast.touch s.kv_page_ids now sc.kv_pool;
    } in
    if d.1
    then record sc' {
      completions = sc.completions ++ (s.id, d.0.output_tokens) ∷ [];
      completed = u64 (sc.completed + 1);
    }
    else sc'

-- The loop of `step_complete`; `none` is a pointer to a sequence that is gone.
unfoldable pub complete_loop : ℕ → List BatchEntry → List ℕ → Scheduler → Option Scheduler
unfolding prefilled complete_decode
complete_loop now [] new_tokens sc = some sc
complete_loop now (e ∷ es) new_tokens sc = elim (find_seq e.seq sc.running) [
  | none ↦ none
  | some s ↦ elim e.is_prefill [
    | true ↦
        complete_loop now es new_tokens
          (record sc { running = put_seq (prefilled e.n_tokens s) sc.running })
    | false ↦
        complete_loop now es (rest_tokens new_tokens)
          (complete_decode now (next_token new_tokens) s sc)
  ]
]

-- `remove_if` by `is_done`.
abbrev pub still_running : List Sequence → List Sequence
still_running [] = []
still_running (s ∷ ss) = let rest = still_running ss in if is_done s then rest else s ∷ rest

-- `Scheduler::step_complete`
unfoldable pub step_complete : ℕ → Batch → List ℕ → Scheduler → Option Scheduler
unfolding complete_loop
step_complete now batch new_tokens sc = elim (complete_loop now batch.entries new_tokens sc) [
  | none ↦ none
  | some sc' ↦ some (record sc' {
    running = still_running sc'.running;
    kv_pool = (PoolFast.leak_scan 30000 now sc'.kv_pool).0;
  })
]

-- `Scheduler::get_stats`
unfoldable pub get_stats : Scheduler → Stats
get_stats sc = record {
  total_requests = sc.total_requests;
  completed = sc.completed;
  preemptions = sc.preemptions;
  total_tokens_generated = sc.tokens_generated;
  n_waiting = length sc.waiting;
  n_running = length sc.running;
  n_swapped = length sc.swapped;
  kv_pages_used = (PoolFast.stats sc.kv_pool).in_use;
  kv_pages_free = (PoolFast.stats sc.kv_pool).total - (PoolFast.stats sc.kv_pool).in_use;
}
