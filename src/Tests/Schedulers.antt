-- ===== src/Tests/Schedulers.antt =====
-- `Scheduler` (src/scheduler.cpp) with two pages of four tokens, both of them in use.
use amp.Prelude.{
  ℕ, ◌+◌, ◌*◌, ◌<◌, ◌≤◌, ◌≡◌, ◌≢◌, refl, List, [], ◌∷◌, ◌++◌, none, some, true, false, length,
  total, count, max, All, arith, ◌⊎◌, inl,
}
use amp.PoolFast
use amp.Scheduler.Data.{
  SeqState, Sequence, PreemptMode, Policy, Config, BatchEntry, Batch, Scheduler, find_seq, ids,
}
use amp.Scheduler.Data
use amp.Scheduler.Pages.{try_alloc_pages, try_alloc_pages_lem, preempt_sequence}
use amp.Scheduler.Step.{schedule}
use amp.Scheduler.Complete.{step_complete, abort_request}
use amp.Scheduler.Budget.{Sound, entry_tokens, schedule-IsWithinBudget}
use amp.Scheduler.Ids.{standing, schedule_conserves}
use amp.Scheduler.Rounds.{step_complete_after_schedule, step_complete_after_abort}
use amp.Scheduler.Starvation.{Call, run, Starved, Remains, run-Remains}

abbrev small : Config
small = record {
  kv_page_size_tokens = 4;
  max_pages_total = 2;
  page_bytes = 64;
  max_batch_tokens = 8;
  max_seqs_running = 2;
  max_waiting_seqs = 4;
  enable_chunked_prefill = true;
  max_prefill_tokens_per_step = 3;
  preempt_mode = PreemptMode.recompute;
  policy = Policy.fcfs;
}

-- Two pages in use, on one shard.
abbrev full : PoolFast.Pool
full = record {
  page_bytes = 64;
  n_shards = 1;
  dptrs = 100 ∷ 101 ∷ [];
  meta = record { shard = 0; touch_us = 5 } ∷ record { shard = 0; touch_us = 5 } ∷ [];
  heads = none ∷ [];
  next = none ∷ none ∷ [];
  alloc_cnt = 2;
  free_cnt = 0;
}

abbrev seq : ℕ → List ℕ → List ℕ → SeqState → List ℕ → Sequence
seq i prompt output state pages = record {
  id = i;
  prompt = "";
  prompt_tokens = prompt;
  output_tokens = output;
  max_new_tokens = 10;
  temperature = 0;
  top_p = 0;
  eos_token_id = none;
  state = state;
  kv_page_ids = pages;
  kv_pages_used = 0;
  prefill_cursor = length prompt;
  prefill_chunk_size = 3;
  enqueue_time = 0;
}

-- The first has a place left in its page, the second has not.
abbrev first : Sequence
first = seq 0 (7 ∷ 8 ∷ []) (9 ∷ []) SeqState.decode (0 ∷ [])

abbrev second : Sequence
second = seq 1 (7 ∷ 8 ∷ 9 ∷ []) (5 ∷ []) SeqState.decode (1 ∷ [])

-- The second as `preempt_sequence` leaves it.
abbrev preempted : Sequence
preempted = record second {
  state = SeqState.waiting;
  output_tokens = [];
  kv_page_ids = [];
  prefill_cursor = 0;
}

abbrev busy : Scheduler
busy = record {
  cfg = small;
  kv_pool = full;
  waiting = [];
  running = first ∷ second ∷ [];
  swapped = [];
  next_id = 2;
  total_requests = 2;
  completed = 0;
  preemptions = 0;
  tokens_generated = 2;
  completions = [];
}

-- The step decodes the first sequence and preempts the second, which stays in `running`.
schedule_runs :
    ((schedule 6 busy).1.entries
      ≡ record { seq = 0; n_tokens = 1; is_prefill = false; prefill_start = 0 } ∷ [])
    × ((schedule 6 busy).1.n_preempted ≡ 1)
    × (find_seq 1 (schedule 6 busy).0.running ≡ some preempted)
    × ((schedule 6 busy).0.waiting ≡ [])
unfolding schedule try_alloc_pages PoolFast.alloc preempt_sequence
schedule_runs = (refl, refl, refl, refl)

abbrev after : Scheduler
after = record busy { running = first ∷ preempted ∷ [] }

after-Starved : Starved 1 preempted after
after-Starved = record {
  parked = record { found = refl; only = ((λ e. absurd (omega arith)), ((λ e. refl), tt)) };
  queued = tt;
  issued = omega arith;
}

abbrev history : List Call
history =
    Call.round 7 8 (4 ∷ [])
    ∷ Call.request (1 ∷ []) 5 0 none 9
    ∷ Call.abort 0
    ∷ Call.round 10 11 []
    ∷ []

run-Remains_example : Remains 1 preempted (run history after)
run-Remains_example =
    run-Remains 1 preempted history after (inl refl)
      (tt, (tt, ((λ e. absurd (omega arith)), (tt, tt)))) after-Starved

schedule-IsWithinBudget_example :
    let batch = (schedule 6 busy).1 in
    (batch.total_tokens ≤ 8)
    × (batch.total_tokens ≡ total entry_tokens batch.entries)
    × (batch.n_prefill + batch.n_decode ≡ length batch.entries)
    × All (Sound small) batch.entries
schedule-IsWithinBudget_example = schedule-IsWithinBudget 6 busy

schedule_conserves_example :
    let r = schedule 6 busy in
    ((i : ℕ) → standing i r.0 ≡ standing i busy)
    × (length r.0.running ≤ max 2 2)
    × All (λ e. 0 < count e.seq (ids r.0.running)) r.1.entries
schedule_conserves_example = schedule_conserves 6 busy

step_complete_after_schedule_example :
    step_complete 7 (schedule 6 busy).1 (4 ∷ []) (schedule 6 busy).0 ≢ none
step_complete_after_schedule_example = step_complete_after_schedule 6 7 (4 ∷ []) busy

abbrev batch : Batch
batch = record {
  entries = record { seq = 0; n_tokens = 1; is_prefill = false; prefill_start = 0 } ∷ [];
  total_tokens = 1;
  n_prefill = 0;
  n_decode = 1;
  n_preempted = 0;
}

step_complete_after_abort_example : step_complete 7 batch (4 ∷ []) (abort_request 0 busy) ≡ none
step_complete_after_abort_example =
    step_complete_after_abort 7 0 (4 ∷ []) batch busy refl (omega arith)

try_alloc_pages_lem_example :
    let r = try_alloc_pages small 6 first 1 full in
    ((r.ok ≡ true)
      × (Data.total_tokens first + 1 ≤ 4 * length r.seq.kv_page_ids)
      × ((new : List ℕ) × (r.seq ≡ record first { kv_page_ids = first.kv_page_ids ++ new })))
    ⊎ ((r.ok ≡ false) × (r.seq ≡ first))
try_alloc_pages_lem_example = try_alloc_pages_lem small 6 first 1 full (omega arith)
