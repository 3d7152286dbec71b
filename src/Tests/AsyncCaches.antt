-- ===== src/Tests/AsyncCaches.antt =====
-- `CacheStoreAsync` (src/cache_async.cpp) on small directories.
use amp.Prelude.{ℕ, ◌≡◌, refl, true, false, [], ◌∷◌, some, length, if◌then◌else◌, arith, ◌==◌}
use amp.Cache
use amp.Cache.{Key, lookup}
use amp.Cache.RoundTrip.{get-put}
use amp.CacheAsync.{u64, Job, Writer, Client, Async, ClientStep, WriterStep, Reach}
use amp.CacheAsync.Flush.{replay, last_for, flush_persists}
use amp.CacheAsync.Races.{stale_promotion, lost_notification, lost_stop}

abbrev empty : Cache.Store
empty = record { bins = []; tmps = [] }

abbrev job : Job
job = record { key = 1 ∷ []; bin = 10 ∷ 20 ∷ [] }

-- A put whose job has been written.
persisted : (s : Async) × Reach empty s × (s.submitted ≡ job ∷ []) × (s.q ≡ []) × (s.busy ≡ false)
persisted =
    let r1 = Reach.by_client 0 Reach.start (ClientStep.put_l1 job refl) in
    let r2 = Reach.by_client 0 r1 (ClientStep.put_queue job refl refl) in
    let r3 = Reach.by_writer r2 (WriterStep.take job [] refl refl) in
    let r4 = Reach.by_writer r3 (WriterStep.write job refl) in
    let r5 = Reach.by_writer r4 (WriterStep.count refl) in
    let r6 = Reach.by_writer r5 (WriterStep.finish_last refl refl) in (_, r6, refl, refl, refl)

flush_persists_example :
    (persisted.0.disk ≡ replay persisted.0.submitted empty)
    × ((key : Key)
        → Cache.get key persisted.0.disk ≡ last_for key persisted.0.submitted (Cache.get key empty))
    × (persisted.0.writes_persisted ≡ u64 (length persisted.0.submitted))
unfolding persisted
flush_persists_example = flush_persists empty persisted.1 persisted.3 persisted.4 (omega arith, tt)

abbrev on_disk : Cache.Store
on_disk = Cache.put (1 ∷ []) (10 ∷ 20 ∷ []) empty

stale_promotion_example :
    (s : Async) × Reach on_disk s
    × (lookup (1 ∷ []) s.l1 ≡ some (10 ∷ 20 ∷ []))
    × (Cache.get (1 ∷ []) s.disk ≡ some (30 ∷ []))
    × (s.q ≡ [])
    × ((j : ℕ) → s.clients j ≡ Client.idle)
stale_promotion_example =
    stale_promotion on_disk (1 ∷ []) (10 ∷ 20 ∷ []) (30 ∷ [])
      (get-put (1 ∷ []) (10 ∷ 20 ∷ []) empty (omega arith)).0 (omega arith)

lost_notification_example :
    (s : Async) × Reach empty s
    × (s.writer ≡ Writer.asleep)
    × (s.q ≡ job ∷ [])
    × ((j : ℕ) → s.clients j ≡ (if 1 == j then Client.flush_asleep else Client.idle))
lost_notification_example = lost_notification empty job

lost_stop_example :
    (s : Async) × Reach empty s
    × (s.writer ≡ Writer.asleep)
    × (s.stop ≡ true)
    × ((j : ℕ) → s.clients j ≡ (if 0 == j then Client.joining else Client.idle))
lost_stop_example = lost_stop empty
