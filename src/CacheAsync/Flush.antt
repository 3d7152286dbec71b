-- ===== src/CacheAsync/Flush.antt =====
-- What `flush` promises (src/cache_async.cpp): the queue is written in order, and all of it.
use amp.Prelude.{
  ℕ, ◌+◌, ◌<◌, ◌^◌, ◌≡◌, refl, sym, ap, ◌∙◌, Bool, true, false, List, [], ◌∷◌, ◌++◌, Option, some,
  if◌then◌else◌, length, length-append, arith, inl, inr, Bool-cases, All,
}
use mathlib.Core.List.{append-nil, append_assoc}
use amp.Cache
use amp.Cache.{Key, same}
use amp.Cache.Maps.{same→≡, same_self}
use amp.Cache.RoundTrip.{get-put}
use amp.CacheAsync.{Job, Writer, Async, ClientStep, WriterStep, Reach, wake_writer, u64}

-- The disk after the jobs, in order.
abbrev pub replay : List Job → Cache.Store → Cache.Store
replay [] disk = disk
replay (job ∷ jobs) disk = replay jobs (Cache.put job.key job.bin disk)

replay-snoc :
    (jobs : List Job) (job : Job) (disk : Cache.Store)
    → replay (jobs ++ job ∷ []) disk ≡ Cache.put job.key job.bin (replay jobs disk)
replay-snoc [] job disk = refl
replay-snoc (j ∷ jobs) job disk = replay-snoc jobs job (Cache.put j.key j.bin disk)

-- The job that the writer has taken and not yet written.
abbrev pub in_flight : Writer → List Job
in_flight (Writer.writing job) = job ∷ []
in_flight _ = []

abbrev pub is_busy : Writer → Bool
is_busy (Writer.writing job) = true
is_busy Writer.stored = true
is_busy Writer.written = true
is_busy _ = false

-- How many of the jobs on the disk are not counted yet.
abbrev pub uncounted : Writer → ℕ
uncounted Writer.stored = 1
uncounted _ = 0

pub record Inv (disk : Cache.Store) (s : Async) : Type 0 where
  pub written : List Job
  pub on_disk : s.disk ≡ replay written disk
  pub order : s.submitted ≡ written ++ (in_flight s.writer ++ s.q)
  pub working : s.busy ≡ is_busy s.writer
  pub counted : ℕ
  pub all_counted : counted + uncounted s.writer ≡ length written
  pub persisted : s.writes_persisted ≡ u64 counted

module _ (disk : Cache.Store) where
  -- A step that touches neither the queue nor the disk, nor what the writer does.
  quiet :
      (s t : Async)
      → t.disk ≡ s.disk
      → t.submitted ≡ s.submitted
      → t.q ≡ s.q
      → in_flight t.writer ≡ in_flight s.writer
      → is_busy t.writer ≡ is_busy s.writer
      → t.busy ≡ s.busy
      → t.writes_persisted ≡ s.writes_persisted
      → uncounted t.writer ≡ uncounted s.writer
      → Inv disk s
      → Inv disk t
  quiet s t d sub q fl bz b p w v = record {
    written = v.written;
    on_disk = d ∙ v.on_disk;
    order =
        sub
        ∙ v.order
        ∙ ap (λ x. v.written ++ (x ++ s.q)) (sym fl)
        ∙ ap (λ x. v.written ++ (in_flight t.writer ++ x)) (sym q);
    working = b ∙ v.working ∙ sym bz;
    persisted = p ∙ v.persisted;
    counted = v.counted;
    all_counted = ap (λ x. v.counted + x) w ∙ v.all_counted;
  }

  wake-same :
      (w : Writer)
      → (in_flight (wake_writer w) ≡ in_flight w)
        × (is_busy (wake_writer w) ≡ is_busy w)
        × (uncounted (wake_writer w) ≡ uncounted w)
  wake-same Writer.checking = (refl, refl, refl)
  wake-same Writer.parking = (refl, refl, refl)
  wake-same Writer.asleep = (refl, refl, refl)
  wake-same (Writer.writing job) = (refl, refl, refl)
  wake-same Writer.stored = (refl, refl, refl)
  wake-same Writer.written = (refl, refl, refl)
  wake-same Writer.exited = (refl, refl, refl)

  client-Inv : (i : ℕ) {s t : Async} → ClientStep i s t → Inv disk s → Inv disk t
  client-Inv i {s = s} (ClientStep.put_l1 job h) v =
      quiet s _ refl refl refl refl refl refl refl refl v
  client-Inv i {s = s} (ClientStep.put_queue job h p) v = record {
    written = v.written;
    on_disk = v.on_disk;
    order = ap (λ x. x ++ job ∷ []) v.order ∙ simp (append_assoc);
    working = v.working;
    persisted = v.persisted;
    counted = v.counted;
    all_counted = v.all_counted;
  }
  client-Inv i {s = s} (ClientStep.put_count h) v =
      quiet s _ refl refl refl refl refl refl refl refl v
  client-Inv i {s = s} (ClientStep.notify_writer h e) v =
      quiet s _ refl refl refl (sym (ap in_flight e)) (sym (ap is_busy e)) refl refl
        (sym (ap uncounted e)) v
  client-Inv i {s = s} (ClientStep.notify_flusher j h e) v =
      quiet s _ refl refl refl refl refl refl refl refl v
  client-Inv i {s = s} (ClientStep.notify_nobody h w e) v =
      quiet s _ refl refl refl refl refl refl refl refl v
  client-Inv i {s = s} (ClientStep.get_hit key bin h e) v =
      quiet s _ refl refl refl refl refl refl refl refl v
  client-Inv i {s = s} (ClientStep.get_miss key h e) v =
      quiet s _ refl refl refl refl refl refl refl refl v
  client-Inv i {s = s} (ClientStep.get_none key h e) v =
      quiet s _ refl refl refl refl refl refl refl refl v
  client-Inv i {s = s} (ClientStep.get_read job h e) v =
      quiet s _ refl refl refl refl refl refl refl refl v
  client-Inv i {s = s} (ClientStep.get_promote job h) v =
      quiet s _ refl refl refl refl refl refl refl refl v
  client-Inv i {s = s} (ClientStep.flush_call h) v =
      quiet s _ refl refl refl refl refl refl refl refl v
  client-Inv i {s = s} (ClientStep.flush_return h p e b) v =
      quiet s _ refl refl refl refl refl refl refl refl v
  client-Inv i {s = s} (ClientStep.flush_wait_queue job rest h p e) v =
      quiet s _ refl refl refl refl refl refl refl refl v
  client-Inv i {s = s} (ClientStep.flush_wait_busy h p b) v =
      quiet s _ refl refl refl refl refl refl refl refl v
  client-Inv i {s = s} (ClientStep.destroy_stop h) v =
      quiet s _ refl refl refl refl refl refl refl refl v
  client-Inv i {s = s} (ClientStep.destroy_join h e) v =
      quiet s _ refl refl refl refl refl refl refl refl v
  client-Inv i {s = s} (ClientStep.destroy_notify h) v =
      quiet s _ refl refl refl (wake-same s.writer).0 (wake-same s.writer).1 refl refl
        (wake-same s.writer).2 v

  writer-Inv : {s t : Async} → WriterStep s t → Inv disk s → Inv disk t
  writer-Inv {s = s} (WriterStep.take job rest h e) v = record {
    written = v.written;
    on_disk = v.on_disk;
    order = v.order ∙ ap (λ w. v.written ++ (in_flight w ++ s.q)) h ∙ ap (λ x. v.written ++ x) e;
    working = refl;
    counted = v.counted;
    all_counted = ap (λ w. v.counted + uncounted w) (sym h) ∙ v.all_counted;
    persisted = v.persisted;
  }
  writer-Inv {s = s} (WriterStep.exit h e st) v =
      quiet s _ refl refl refl (sym (ap in_flight h)) (sym (ap is_busy h)) refl refl
        (sym (ap uncounted h)) v
  writer-Inv {s = s} (WriterStep.park h e st) v =
      quiet s _ refl refl refl (sym (ap in_flight h)) (sym (ap is_busy h)) refl refl
        (sym (ap uncounted h)) v
  writer-Inv {s = s} (WriterStep.sleep h) v =
      quiet s _ refl refl refl (sym (ap in_flight h)) (sym (ap is_busy h)) refl refl
        (sym (ap uncounted h)) v
  writer-Inv {s = s} (WriterStep.write job h) v = record {
    written = v.written ++ job ∷ [];
    on_disk = ap (Cache.put job.key job.bin) v.on_disk ∙ sym (replay-snoc v.written job disk);
    order =
        v.order
        ∙ ap (λ w. v.written ++ (in_flight w ++ s.q)) h
        ∙ sym (append_assoc v.written (job ∷ []) s.q);
    working = v.working ∙ ap is_busy h;
    counted = v.counted;
    all_counted = omega (arith, v.all_counted, ap uncounted h, length-append v.written (job ∷ []));
    persisted = v.persisted;
  }
  writer-Inv {s = s} (WriterStep.count h) v = record {
    written = v.written;
    on_disk = v.on_disk;
    order = v.order ∙ ap (λ w. v.written ++ (in_flight w ++ s.q)) h;
    working = v.working ∙ ap is_busy h;
    counted = v.counted + 1;
    all_counted = omega (arith, v.all_counted, ap uncounted h);
    persisted = omega (arith, v.persisted);
  }
  writer-Inv {s = s} (WriterStep.finish_last h e) v = record {
    written = v.written;
    on_disk = v.on_disk;
    order = v.order ∙ ap (λ w. v.written ++ (in_flight w ++ s.q)) h;
    working = refl;
    counted = v.counted;
    all_counted = ap (λ w. v.counted + uncounted w) (sym h) ∙ v.all_counted;
    persisted = v.persisted;
  }
  writer-Inv {s = s} (WriterStep.finish job rest h e) v = record {
    written = v.written;
    on_disk = v.on_disk;
    order = v.order ∙ ap (λ w. v.written ++ (in_flight w ++ s.q)) h;
    working = refl;
    counted = v.counted;
    all_counted = ap (λ w. v.counted + uncounted w) (sym h) ∙ v.all_counted;
    persisted = v.persisted;
  }

Reach-Inv : (disk : Cache.Store) {s : Async} → Reach disk s → Inv disk s
Reach-Inv disk Reach.start = record {
  written = [];
  on_disk = refl;
  order = refl;
  working = refl;
  counted = 0;
  all_counted = refl;
  persisted = refl;
}
Reach-Inv disk (Reach.by_client i r st) = client-Inv disk i st (Reach-Inv disk r)
Reach-Inv disk (Reach.by_writer r st) = writer-Inv disk st (Reach-Inv disk r)

-- The last payload that the jobs give a key, or else what `get` gave before them.
abbrev pub last_for : Key → List Job → Option (List ℕ) → Option (List ℕ)
last_for key [] before = before
last_for key (job ∷ jobs) before =
    last_for key jobs (if same key job.key then some job.bin else before)

get-replay :
    (key : Key) (jobs : List Job) (disk : Cache.Store)
    → All (λ job. length job.bin < 2 ^ 32) jobs
    → Cache.get key (replay jobs disk) ≡ last_for key jobs (Cache.get key disk)
get-replay key [] disk fits = refl
get-replay key (job ∷ jobs) disk fits =
    let disk' = Cache.put job.key job.bin disk in
    let wrote = get-put job.key job.bin disk fits.0 in
    let step : Cache.get key disk'
        ≡ (if same key job.key then some job.bin else Cache.get key disk) =
      elim (Bool-cases (same key job.key)) [
        | inl e ↦ rw e (ap (λ k. Cache.get k disk') (same→≡ key job.key e) ∙ wrote.0)
        | inr e ↦ rw e (
            wrote.1 key
              (λ k_is. absurd (ground (arith, same_self job.key, ap (λ k. same k job.key) k_is))))
      ] in
    get-replay key jobs disk' fits.1 ∙ ap (last_for key jobs) step

none-left : (w : Writer) (q : List Job) → q ≡ [] → is_busy w ≡ false → in_flight w ++ q ≡ []
none-left Writer.checking q e b = e
none-left Writer.parking q e b = e
none-left Writer.asleep q e b = e
none-left (Writer.writing job) q e b = cc
none-left Writer.stored q e b = cc
none-left Writer.written q e b = cc
none-left Writer.exited q e b = e

none-uncounted : (w : Writer) → is_busy w ≡ false → uncounted w ≡ 0
none-uncounted Writer.checking b = refl
none-uncounted Writer.parking b = refl
none-uncounted Writer.asleep b = refl
none-uncounted (Writer.writing job) b = refl
none-uncounted Writer.stored b = cc
none-uncounted Writer.written b = refl
none-uncounted Writer.exited b = refl

-- In every interleaving: where `flush` may return, each job that was queued has been written, in the
-- order of the queue; so the disk gives for each key the last payload queued for it, or what it
-- gave at the start (payloads whose length fits the header). `writes_persisted` is their number.
pub flush_persists :
    (disk : Cache.Store) {s : Async}
    → Reach disk s
    → s.q ≡ []
    → s.busy ≡ false
    → All (λ job. length job.bin < 2 ^ 32) s.submitted
    → (s.disk ≡ replay s.submitted disk)
      × ((key : Key) → Cache.get key s.disk ≡ last_for key s.submitted (Cache.get key disk))
      × (s.writes_persisted ≡ u64 (length s.submitted))
flush_persists disk {s = s} r empty still fits =
    let v = Reach-Inv disk r in
    let left = none-left s.writer s.q empty (sym v.working ∙ still) in
    let counted : v.counted ≡ length v.written =
      omega (arith, v.all_counted, none-uncounted s.writer (sym v.working ∙ still)) in
    let all_of_them : s.submitted ≡ v.written =
      v.order ∙ ap (λ x. v.written ++ x) left ∙ append-nil v.written in
    let on_disk : s.disk ≡ replay s.submitted disk =
      v.on_disk ∙ ap (λ x. replay x disk) (sym all_of_them) in
    (
      on_disk,
      (λ key. ap (Cache.get key) on_disk ∙ get-replay key s.submitted disk fits),
      v.persisted ∙ ap u64 counted ∙ ap (λ x. u64 (length x)) (sym all_of_them),
    )

-- When the writer's thread has ended, so has every job that was queued by then.
pub exit_drains :
    (disk : Cache.Store) {s t : Async}
    → Reach disk s
    → WriterStep s t
    → t.writer ≡ Writer.exited
    → t.disk ≡ replay t.submitted disk
exit_drains disk r (WriterStep.take job rest h e) ended = cc
exit_drains disk {s = s} r (WriterStep.exit h e st) ended =
    let v = Reach-Inv disk r in
    let left = none-left s.writer s.q e (ap is_busy h) in
    v.on_disk
    ∙ ap (λ x. replay x disk) (sym (v.order ∙ ap (λ x. v.written ++ x) left ∙ append-nil v.written))
exit_drains disk r (WriterStep.park h e st) ended = cc
exit_drains disk r (WriterStep.sleep h) ended = cc
exit_drains disk r (WriterStep.write job h) ended = cc
exit_drains disk r (WriterStep.count h) ended = cc
exit_drains disk r (WriterStep.finish_last h e) ended = cc
exit_drains disk r (WriterStep.finish job rest h e) ended = cc
