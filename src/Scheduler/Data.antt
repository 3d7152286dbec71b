-- ===== src/Scheduler/Data.antt =====
-- The types of include/scheduler.hpp, and the lists of sequences that the scheduler keeps.
use amp.Prelude.{
  ℕ, ◌+◌, ◌-◌, ◌%◌, ◌^◌, Bool, true, false, List, [], ◌∷◌, Option, none, some, if◌then◌else◌,
  length, map, ◌==◌,
}
use Prim.Native.String.{String}
use amp.PoolFast

-- `enum class SeqState`
pub data SeqState : Type 0 where
  waiting prefill decode swapped done aborted : SeqState

-- `struct Sequence`; an `eos_token_id` below 0 is `none`.
pub record Sequence : Type 0 where
  pub id : ℕ
  pub prompt : String
  pub prompt_tokens : List ℕ
  pub output_tokens : List ℕ
  pub max_new_tokens : ℕ
  pub temperature : ℕ
  pub top_p : ℕ
  pub eos_token_id : Option ℕ
  pub state : SeqState
  pub kv_page_ids : List ℕ
  pub kv_pages_used : ℕ
  pub prefill_cursor : ℕ
  pub prefill_chunk_size : ℕ
  pub enqueue_time : ℕ

-- `Sequence::is_done`, `total_tokens` and `remaining_prefill`. The last is compared with 0 only.
abbrev pub is_done_state : SeqState → Bool
is_done_state SeqState.done = true
is_done_state SeqState.aborted = true
is_done_state _ = false

abbrev pub is_done : Sequence → Bool
is_done s = is_done_state s.state

abbrev pub total_tokens : Sequence → ℕ
total_tokens s = length s.prompt_tokens + length s.output_tokens

abbrev pub remaining_prefill : Sequence → ℕ
remaining_prefill s = length s.prompt_tokens - s.prefill_cursor

pub data PreemptMode : Type 0 where
  recompute swap : PreemptMode

pub data Policy : Type 0 where
  fcfs srt : Policy

-- `struct SchedulerConfig`
pub record Config : Type 0 where
  pub kv_page_size_tokens : ℕ
  pub max_pages_total : ℕ
  pub page_bytes : ℕ
  pub max_batch_tokens : ℕ
  pub max_seqs_running : ℕ
  pub max_waiting_seqs : ℕ
  pub enable_chunked_prefill : Bool
  pub max_prefill_tokens_per_step : ℕ
  pub preempt_mode : PreemptMode
  pub policy : Policy

-- `struct BatchEntry`
pub record BatchEntry : Type 0 where
  pub seq : ℕ
  pub n_tokens : ℕ
  pub is_prefill : Bool
  pub prefill_start : ℕ

-- `struct ScheduledBatch`
pub record Batch : Type 0 where
  pub entries : List BatchEntry
  pub total_tokens : ℕ
  pub n_prefill : ℕ
  pub n_decode : ℕ
  pub n_preempted : ℕ

-- `class Scheduler`; `completions` is the log of the calls of `completion_cb_`.
pub record Scheduler : Type 0 where
  pub cfg : Config
  pub kv_pool : PoolFast.Pool
  pub waiting : List Sequence
  pub running : List Sequence
  pub swapped : List Sequence
  pub next_id : ℕ
  pub total_requests : ℕ
  pub completed : ℕ
  pub preemptions : ℕ
  pub tokens_generated : ℕ
  pub completions : List (ℕ × List ℕ)

-- `Scheduler::Stats`
pub record Stats : Type 0 where
  pub total_requests : ℕ
  pub completed : ℕ
  pub preemptions : ℕ
  pub total_tokens_generated : ℕ
  pub n_waiting : ℕ
  pub n_running : ℕ
  pub n_swapped : ℕ
  pub kv_pages_used : ℕ
  pub kv_pages_free : ℕ

-- The ids of a list of sequences.
abbrev pub ids : List Sequence → List ℕ
ids = map (λ s. s.id)

-- What a pointer to the sequence `i` leads to.
abbrev pub find_seq : ℕ → List Sequence → Option Sequence
find_seq i [] = none
find_seq i (s ∷ ss) = if s.id == i then some s else find_seq i ss

-- A write through a pointer to the sequence.
abbrev pub put_seq : Sequence → List Sequence → List Sequence
put_seq t [] = []
put_seq t (s ∷ ss) = if s.id == t.id then t ∷ ss else s ∷ put_seq t ss

-- `vec.erase(it)` at the sequence `i`.
abbrev pub erase_seq : ℕ → List Sequence → List Sequence
erase_seq i [] = []
erase_seq i (s ∷ ss) = if s.id == i then ss else s ∷ erase_seq i ss

-- `back()` and `pop_back()`.
abbrev pub unsnoc : List ℕ → Option (List ℕ × ℕ)
unsnoc [] = none
unsnoc (x ∷ xs) = elim (unsnoc xs) [
  | none ↦ some ([], x)
  | some (front, last) ↦ some (x ∷ front, last)
]

abbrev pub u64 : ℕ → ℕ
u64 n = n % 2 ^ 64
