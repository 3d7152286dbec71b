-- ===== src/CacheAsync.antt =====
-- include/cache_async.hpp and src/cache_async.cpp: a table in memory, and a thread that writes to
-- the disk store. Threads interleave between their critical sections, each of which is one step;
-- the write of a file is one too, since it ends in a rename. A thread that the condition variable
-- holds wakes by a notification only. A counter that is stepped outside of the critical sections is
-- stepped in a step of its own. `submitted` lists the jobs in the order of the queue.
pub mod Flush
pub mod Races
use amp.Prelude.{
  ℕ, zero, suc, ◌+◌, ◌%◌, ◌^◌, ◌≡◌, ◌≢◌, Bool, true, false, List, [], ◌∷◌, ◌++◌, Option, none, some,
  if◌then◌else◌, ◌==◌,
}
use amp.Cache
use amp.Cache.{Key, lookup, assign}

-- `struct WriteJob`
pub record Job : Type 0 where
  pub key : Key
  pub bin : List ℕ

-- Where the thread of `writer_loop` stands. It is `parking` between a predicate that failed and the
-- wait, and holds the mutex of the queue.
pub data Writer : Type 0 where
  checking : Writer
  parking : Writer
  asleep : Writer
  writing : Job → Writer
  stored : Writer
  written : Writer
  exited : Writer

-- Where a thread that calls the cache stands.
pub data Client : Type 0 where
  idle : Client
  queueing : Job → Client
  counting : Client
  notifying : Client
  reading : Key → Client
  promoting : Job → Client
  flushing : Client
  flush_asleep : Client
  stopping : Client
  joining : Client
  destroyed : Client

-- `class CacheStoreAsync`, with the threads.
pub record Async : Type 0 where
  pub disk : Cache.Store
  pub l1 : List (Key × List ℕ)
  pub q : List Job
  pub stop : Bool
  pub busy : Bool
  pub l1_hits : ℕ
  pub writes_queued : ℕ
  pub writes_persisted : ℕ
  pub submitted : List Job
  pub writer : Writer
  pub clients : ℕ → Client

abbrev pub u64 : ℕ → ℕ
u64 n = n % 2 ^ 64

abbrev pub update : (ℕ → Client) → ℕ → Client → ℕ → Client
update f i c j = if i == j then c else f j

abbrev pub move : ℕ → Client → Async → Async
move i c s = record s { clients = update s.clients i c }

-- What `notify_all` does to a thread.
abbrev pub wake : Client → Client
wake Client.flush_asleep = Client.flushing
wake c = c

abbrev pub wake_writer : Writer → Writer
wake_writer Writer.asleep = Writer.checking
wake_writer w = w

abbrev pub is_parking : Writer → Bool
is_parking Writer.parking = true
is_parking _ = false

-- The constructor, on a directory.
abbrev pub init : Cache.Store → Async
init disk = record {
  disk = disk;
  l1 = [];
  q = [];
  stop = false;
  busy = false;
  l1_hits = 0;
  writes_queued = 0;
  writes_persisted = 0;
  submitted = [];
  writer = Writer.checking;
  clients = λ i. Client.idle;
}

-- A step of the thread `i` in a call, up to the end of its next critical section.
pub data ClientStep (i : ℕ) (s : Async) : Async → Type 0 where
  put_l1 :
      (job : Job)
      → s.clients i ≡ Client.idle
      → ClientStep i s
          (record (move i (Client.queueing job) s) { l1 = assign job.key job.bin s.l1 })
  put_queue :
      (job : Job)
      → s.clients i ≡ Client.queueing job
      → is_parking s.writer ≡ false
      → ClientStep i s (record (move i Client.counting s) {
        q = s.q ++ job ∷ [];
        submitted = s.submitted ++ job ∷ [];
      })
  put_count :
      s.clients i ≡ Client.counting
      → ClientStep i s
          (record (move i Client.notifying s) { writes_queued = u64 (s.writes_queued + 1) })
  notify_writer :
      s.clients i ≡ Client.notifying
      → s.writer ≡ Writer.asleep
      → ClientStep i s (record (move i Client.idle s) { writer = Writer.checking })
  notify_flusher :
      (j : ℕ)
      → s.clients i ≡ Client.notifying
      → s.clients j ≡ Client.flush_asleep
      → ClientStep i s (move j Client.flushing (move i Client.idle s))
  notify_nobody :
      s.clients i ≡ Client.notifying
      → s.writer ≢ Writer.asleep
      → ((j : ℕ) → s.clients j ≢ Client.flush_asleep)
      → ClientStep i s (move i Client.idle s)
  get_hit :
      (key : Key) (bin : List ℕ)
      → s.clients i ≡ Client.idle
      → lookup key s.l1 ≡ some bin
      → ClientStep i s (record s { l1_hits = u64 (s.l1_hits + 1) })
  get_miss :
      (key : Key)
      → s.clients i ≡ Client.idle
      → lookup key s.l1 ≡ none
      → ClientStep i s (move i (Client.reading key) s)
  get_none :
      (key : Key)
      → s.clients i ≡ Client.reading key
      → Cache.get key s.disk ≡ none
      → ClientStep i s (move i Client.idle s)
  get_read :
      (job : Job)
      → s.clients i ≡ Client.reading job.key
      → Cache.get job.key s.disk ≡ some job.bin
      → ClientStep i s (move i (Client.promoting job) s)
  get_promote :
      (job : Job)
      → s.clients i ≡ Client.promoting job
      → ClientStep i s (record (move i Client.idle s) { l1 = assign job.key job.bin s.l1 })
  flush_call : s.clients i ≡ Client.idle → ClientStep i s (move i Client.flushing s)
  flush_return :
      s.clients i ≡ Client.flushing
      → is_parking s.writer ≡ false
      → s.q ≡ []
      → s.busy ≡ false
      → ClientStep i s (move i Client.idle s)
  flush_wait_queue :
      (job : Job) (rest : List Job)
      → s.clients i ≡ Client.flushing
      → is_parking s.writer ≡ false
      → s.q ≡ job ∷ rest
      → ClientStep i s (move i Client.flush_asleep s)
  flush_wait_busy :
      s.clients i ≡ Client.flushing
      → is_parking s.writer ≡ false
      → s.busy ≡ true
      → ClientStep i s (move i Client.flush_asleep s)
  destroy_stop :
      s.clients i ≡ Client.idle → ClientStep i s (record (move i Client.stopping s) { stop = true })
  destroy_notify :
      s.clients i ≡ Client.stopping
      → ClientStep i s (record s {
        writer = wake_writer s.writer;
        clients = λ j. wake (update s.clients i Client.joining j);
      })
  destroy_join :
      s.clients i ≡ Client.joining
      → s.writer ≡ Writer.exited
      → ClientStep i s (move i Client.destroyed s)

-- A step of the thread of `writer_loop`.
pub data WriterStep (s : Async) : Async → Type 0 where
  take :
      (job : Job) (rest : List Job)
      → s.writer ≡ Writer.checking
      → s.q ≡ job ∷ rest
      → WriterStep s (record s { writer = Writer.writing job; q = rest; busy = true })
  exit :
      s.writer ≡ Writer.checking
      → s.q ≡ []
      → s.stop ≡ true
      → WriterStep s (record s { writer = Writer.exited })
  park :
      s.writer ≡ Writer.checking
      → s.q ≡ []
      → s.stop ≡ false
      → WriterStep s (record s { writer = Writer.parking })
  sleep : s.writer ≡ Writer.parking → WriterStep s (record s { writer = Writer.asleep })
  write :
      (job : Job)
      → s.writer ≡ Writer.writing job
      → WriterStep s (record s { writer = Writer.stored; disk = Cache.put job.key job.bin s.disk })
  count :
      s.writer ≡ Writer.stored
      → WriterStep s
          (record s { writer = Writer.written; writes_persisted = u64 (s.writes_persisted + 1) })
  finish_last :
      s.writer ≡ Writer.written
      → s.q ≡ []
      → WriterStep s
          (record s { writer = Writer.checking; busy = false; clients = λ j. wake (s.clients j) })
  finish :
      (job : Job) (rest : List Job)
      → s.writer ≡ Writer.written
      → s.q ≡ job ∷ rest
      → WriterStep s (record s { writer = Writer.checking; busy = false })

pub data Reach (disk : Cache.Store) : Async → Type 0 where
  start : Reach disk (init disk)
  by_client : (i : ℕ) {s t : Async} → Reach disk s → ClientStep i s t → Reach disk t
  by_writer : {s t : Async} → Reach disk s → WriterStep s t → Reach disk t
