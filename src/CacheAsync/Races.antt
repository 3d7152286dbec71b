-- ===== src/CacheAsync/Races.antt =====
-- Interleavings of src/cache_async.cpp that lose a write of the table, a flush or a destructor.
use amp.Prelude.{
  ℕ, ◌<◌, ◌^◌, ◌≡◌, refl, true, List, [], ◌∷◌, some, if◌then◌else◌, length, ◌==◌, arith,
}
use amp.Cache
use amp.Cache.{Key, lookup, assign}
use amp.Cache.Maps.{lookup-assign_self}
use amp.Cache.RoundTrip.{get-put}
use amp.CacheAsync.{Job, Writer, Client, Async, ClientStep, WriterStep, Reach}

-- A `get` that has read the disk before a `put` of the same key promotes the old payload after it:
-- from then on the table gives the old payload, although the `put` is complete, its job is on the
-- disk and no call is running.
pub stale_promotion :
    (disk : Cache.Store) (key : Key) (old new : List ℕ)
    → Cache.get key disk ≡ some old
    → length new < 2 ^ 32
    → (s : Async) × Reach disk s
      × (lookup key s.l1 ≡ some old)
      × (Cache.get key s.disk ≡ some new)
      × (s.q ≡ [])
      × ((j : ℕ) → s.clients j ≡ Client.idle)
stale_promotion disk key old new found fits =
    let job : Job = record { key = key; bin = new } in
    let before : Job = record { key = key; bin = old } in
    let r1 = Reach.by_client 0 Reach.start (ClientStep.get_miss key refl refl) in
    let r2 = Reach.by_client 0 r1 (ClientStep.get_read before refl found) in
    let r3 = Reach.by_client 1 r2 (ClientStep.put_l1 job refl) in
    let r4 = Reach.by_client 1 r3 (ClientStep.put_queue job refl refl) in
    let r5 = Reach.by_client 1 r4 (ClientStep.put_count refl) in
    let r6 = Reach.by_client 1 r5 (ClientStep.notify_nobody refl (λ e. cc) (λ j e. ground arith)) in
    let r7 = Reach.by_writer r6 (WriterStep.take job [] refl refl) in
    let r8 = Reach.by_writer r7 (WriterStep.write job refl) in
    let r9 = Reach.by_writer r8 (WriterStep.count refl) in
    let r10 = Reach.by_writer r9 (WriterStep.finish_last refl refl) in
    let r11 = Reach.by_client 0 r10 (ClientStep.get_promote before refl) in
    (
      _,
      r11,
      lookup-assign_self key old (assign key new []),
      (get-put key new disk fits).0,
      refl,
      (λ j. ground arith),
    )

-- The notification of a `put` may wake a thread in `flush`, which then waits again: the writer stays
-- asleep with the job in the queue, and no thread is left that would notify it.
pub lost_notification :
    (disk : Cache.Store) (job : Job)
    → (s : Async) × Reach disk s
      × (s.writer ≡ Writer.asleep)
      × (s.q ≡ job ∷ [])
      × ((j : ℕ) → s.clients j ≡ (if 1 == j then Client.flush_asleep else Client.idle))
lost_notification disk job =
    let r1 = Reach.by_writer Reach.start (WriterStep.park refl refl refl) in
    let r2 = Reach.by_writer r1 (WriterStep.sleep refl) in
    let r3 = Reach.by_client 0 r2 (ClientStep.put_l1 job refl) in
    let r4 = Reach.by_client 0 r3 (ClientStep.put_queue job refl refl) in
    let r5 = Reach.by_client 0 r4 (ClientStep.put_count refl) in
    let r6 = Reach.by_client 1 r5 (ClientStep.flush_call refl) in
    let r7 = Reach.by_client 1 r6 (ClientStep.flush_wait_queue job [] refl refl refl) in
    let r8 = Reach.by_client 0 r7 (ClientStep.notify_flusher 1 refl refl) in
    let r9 = Reach.by_client 1 r8 (ClientStep.flush_wait_queue job [] refl refl refl) in
    (_, r9, refl, refl, (λ j. ground arith))

-- A job that is in the queue is counted after the mutex is released: where a `flush` returns in
-- between, one more job has been persisted than has been queued.
late_count :
    (disk : Cache.Store) (job : Job)
    → (s t : Async) × Reach disk s
      × ClientStep 1 s t
      × (s.clients 1 ≡ Client.flushing)
      × (t.clients 1 ≡ Client.idle)
      × (t.writes_persisted ≡ 1)
      × (t.writes_queued ≡ 0)
late_count disk job =
    let r1 = Reach.by_client 0 Reach.start (ClientStep.put_l1 job refl) in
    let r2 = Reach.by_client 0 r1 (ClientStep.put_queue job refl refl) in
    let r3 = Reach.by_writer r2 (WriterStep.take job [] refl refl) in
    let r4 = Reach.by_writer r3 (WriterStep.write job refl) in
    let r5 = Reach.by_writer r4 (WriterStep.count refl) in
    let r6 = Reach.by_writer r5 (WriterStep.finish_last refl refl) in
    let r7 = Reach.by_client 1 r6 (ClientStep.flush_call refl) in
    (_, _, r7, ClientStep.flush_return refl refl refl refl, refl, refl, refl, refl)

-- The destructor sets `stop_` and notifies without the mutex: between the writer's test and its
-- wait both are lost. The writer sleeps for ever, and the destructor waits for it in `join`.
pub lost_stop :
    (disk : Cache.Store)
    → (s : Async) × Reach disk s
      × (s.writer ≡ Writer.asleep)
      × (s.stop ≡ true)
      × ((j : ℕ) → s.clients j ≡ (if 0 == j then Client.joining else Client.idle))
lost_stop disk =
    let r1 = Reach.by_writer Reach.start (WriterStep.park refl refl refl) in
    let r2 = Reach.by_client 0 r1 (ClientStep.destroy_stop refl) in
    let r3 = Reach.by_client 0 r2 (ClientStep.destroy_notify refl) in
    let r4 = Reach.by_writer r3 (WriterStep.sleep refl) in (_, r4, refl, refl, (λ j. ground arith))

-- A writer that sleeps takes no step.
pub asleep_stays : (s t : Async) → s.writer ≡ Writer.asleep → ¬ WriterStep s t
asleep_stays s t e (WriterStep.take job rest h q) = cc
asleep_stays s t e (WriterStep.exit h q st) = cc
asleep_stays s t e (WriterStep.park h q st) = cc
asleep_stays s t e (WriterStep.sleep h) = cc
asleep_stays s t e (WriterStep.write job h) = cc
asleep_stays s t e (WriterStep.count h) = cc
asleep_stays s t e (WriterStep.finish_last h q) = cc
asleep_stays s t e (WriterStep.finish job rest h q) = cc
