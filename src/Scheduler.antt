-- ===== src/Scheduler.antt =====
-- include/scheduler.hpp and src/scheduler.cpp: continuous batching with chunked prefill. Each
-- method runs under the scheduler's mutex, so it is one step on the record below; the clock is
-- read once for each call and is an argument. A `Sequence*` is the id of the sequence: `next_id_`
-- gives each its own. Token counts and limits are numbers (the `int`s of the source are not
-- negative here, and what it subtracts is compared with 0 before it is used). Floats are carried
-- as their bit patterns.
pub mod Data
pub mod Pages
pub mod Step
pub mod Complete
pub mod Budget
pub mod Parked
pub mod Stuck
pub mod Preempted
pub mod Ids
pub mod Rounds
pub mod Starvation
