-- ===== src/Scheduler/Pages.antt =====
-- The pages of a sequence: the helpers of src/scheduler.cpp over its `PagePoolFast`.
use amp.Prelude.{
  ℕ, ◌+◌, ◌-◌, ◌/◌, ◌*◌, ◌≤◌, ◌<◌, ◌≡◌, refl, Bool, true, false, List, [], ◌∷◌, ◌++◌, if◌then◌else◌,
  length, ltb, leb, arith, ap, sym, leb→le, length-append, ◌⊎◌, inl, inr, Bool-cases,
}
use mathlib.Core.List.{append-nil}
use amp.PoolFast
use amp.Scheduler.Data.{SeqState, Sequence, Config, total_tokens}

-- `Scheduler::pages_needed_for`
unfoldable pub pages_needed_for : Config → Sequence → ℕ → ℕ
pages_needed_for cfg s n_tokens =
    (total_tokens s + n_tokens + cfg.kv_page_size_tokens - 1) / cfg.kv_page_size_tokens

-- What `try_alloc_pages` leaves behind.
pub record Tried : Type 0 where
  pub pool : PoolFast.Pool
  pub seq : Sequence
  pub ok : Bool

-- `Scheduler::try_alloc_pages`
unfoldable pub try_alloc_pages : Config → ℕ → Sequence → ℕ → PoolFast.Pool → Tried
unfolding pages_needed_for
try_alloc_pages cfg now s n_new_tokens pool =
    let needed = pages_needed_for cfg s n_new_tokens in
    let have = length s.kv_page_ids in
    let extra = needed - have in
    let r = PoolFast.alloc extra s.id now pool in
    if leb needed have
    then record { pool = pool; seq = s; ok = true }
    else (if ltb (length r.1) extra then record { pool = r.0; seq = s; ok = false } else record {
      pool = r.0;
      seq = record s { kv_page_ids = s.kv_page_ids ++ r.1 };
      ok = true;
    })

-- `Scheduler::free_pages`: the pool, and the sequence without its pages.
unfoldable pub free_pages : Sequence → PoolFast.Pool → PoolFast.Pool × Sequence
free_pages s pool = elim s.kv_page_ids [
  | [] ↦ (pool, s)
  | p ∷ ps ↦ (PoolFast.free_pages s.kv_page_ids pool, record s { kv_page_ids = [] })
]

-- `Scheduler::preempt_sequence`, but for the counter.
unfoldable pub preempt_sequence : Sequence → PoolFast.Pool → PoolFast.Pool × Sequence
unfolding free_pages
preempt_sequence s pool =
    let r = free_pages s pool in
    (r.0, record (r.1) { state = SeqState.waiting; prefill_cursor = 0; output_tokens = [] })

ceil_div : (t p : ℕ) → 0 < p → t ≤ p * ((t + p - 1) / p)
ceil_div t p h = grind arith

needed-covers :
    (cfg : Config) (s : Sequence) (n : ℕ)
    → 0 < cfg.kv_page_size_tokens
    → total_tokens s + n ≤ cfg.kv_page_size_tokens * pages_needed_for cfg s n
unfolding pages_needed_for
needed-covers cfg s n h = ceil_div (total_tokens s + n) cfg.kv_page_size_tokens h

covers_more : (p t k m : ℕ) → t ≤ p * k → k ≤ m → t ≤ p * m
covers_more p t k m h le = grind arith

-- After a successful `try_alloc_pages` the pages of the sequence hold its tokens and the new ones;
-- nothing of the sequence changes but its list of pages, which grows at the end, and a failure
-- changes nothing of it at all.
pub try_alloc_pages_lem :
    (cfg : Config) (now : ℕ) (s : Sequence) (n : ℕ) (pool : PoolFast.Pool)
    → 0 < cfg.kv_page_size_tokens
    → let r = try_alloc_pages cfg now s n pool in
      ((r.ok ≡ true)
        × (total_tokens s + n ≤ cfg.kv_page_size_tokens * length r.seq.kv_page_ids)
        × ((new : List ℕ) × (r.seq ≡ record s { kv_page_ids = s.kv_page_ids ++ new })))
      ⊎ ((r.ok ≡ false) × (r.seq ≡ s))
unfolding try_alloc_pages
try_alloc_pages_lem cfg now s n pool pos =
    let needed = pages_needed_for cfg s n in
    let have = length s.kv_page_ids in
    let r = PoolFast.alloc (needed - have) s.id now pool in
    let fits = needed-covers cfg s n pos in
    let size = cfg.kv_page_size_tokens in
    elim (Bool-cases (leb needed have)) [
      | inl enough ↦
          rw (enough, try_alloc_pages)
            (inl (
              refl,
              covers_more size _ needed have fits (leb→le needed have enough),
              ([], ap (λ ps. record s { kv_page_ids = ps }) (sym (append-nil s.kv_page_ids))),
            ))
      | inr more ↦ elim (Bool-cases (ltb (length r.1) (needed - have))) [
        | inl short ↦ rw (more, short, try_alloc_pages) (inr (refl, refl))
        | inr got ↦
            rw (more, got, try_alloc_pages)
              (inl (
                refl,
                covers_more size _ needed _ fits (ground (arith, length-append s.kv_page_ids r.1)),
                (r.1, refl),
              ))
      ]
    ]
