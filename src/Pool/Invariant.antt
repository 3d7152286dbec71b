-- ===== src/Pool/Invariant.antt =====
-- What ties the free list of `PagePool` (src/pool.cpp) to the `freed` flags of its pages.
use amp.Prelude.{
  ℕ, zero, suc, ◌<◌, ◌≡◌, inl, inr, refl, sym, true, false, List, [], ◌∷◌, ltb, ◌==◌, if◌then◌else◌,
  length, get_or, set, bit, count, total, get_or-set, total-set, set_of_le, Bool-cases, length-set,
  arith,
}
use Prim.Native.String.{String}
use amp.Pool.{
  Page, blank_page, Pool, page, taken, returned, alloc_loop, alloc, give_back, free_pages, touch,
}

-- 1 if there is a page `i` and it is free.
abbrev pub is_free : List Page → ℕ → ℕ
is_free pages i = if ltb i (length pages) then bit (get_or pages i blank_page).freed else 0

abbrev pub free_bit : Page → ℕ
free_bit q = bit q.freed

-- The free list holds each free page once and no other number.
pub record Tied (pages : List Page) (fl : List ℕ) : Type 0 where
  pub exact : (i : ℕ) → count i fl ≡ is_free pages i
  pub counted : length fl ≡ total free_bit pages

abbrev pub Inv : Pool → Type 0
Inv p = Tied p.pages p.free_list

-- A write to page `id` changes the flag of that page only.
pub is_free-set :
    (pages : List Page) (id i : ℕ) (q : Page)
    → is_free (set pages id q) i
      ≡ (if id == i then (if ltb i (length pages) then bit q.freed else 0) else is_free pages i)
is_free-set pages id i q = ground (arith, length-set pages id q, get_or-set pages id i q blank_page)

-- The head of the free list is a free page.
pub Tied-head :
    (pages : List Page) (id : ℕ) (fl : List ℕ)
    → Tied pages (id ∷ fl)
    → (id < length pages) × ((get_or pages id blank_page).freed ≡ true)
Tied-head pages id fl v = ground (arith, v.exact id)

-- A write that leaves the flag alone.
pub Tied-same :
    (pages : List Page) (fl : List ℕ) (id : ℕ) (q : Page)
    → q.freed ≡ (get_or pages id blank_page).freed
    → Tied pages fl
    → Tied (set pages id q) fl
Tied-same pages fl id q e v = record {
  exact = λ i. ground (arith, v.exact i, is_free-set pages id i q);
  counted = elim (Bool-cases (ltb id (length pages))) [
    | inl h ↦ ground (arith, v.counted, total-set free_bit pages id q blank_page)
    | inr h ↦ rw (set_of_le pages id q (ground arith)) v.counted
  ];
}

-- The head of the free list goes into use.
pub Tied-take :
    (pages : List Page) (id : ℕ) (fl : List ℕ) (q : Page)
    → q.freed ≡ false
    → Tied pages (id ∷ fl)
    → Tied (set pages id q) fl
Tied-take pages id fl q e v = record {
  exact = λ i. ground (arith, v.exact i, v.exact id, is_free-set pages id i q);
  counted = ground (arith, v.counted, v.exact id, total-set free_bit pages id q blank_page);
}

-- A page in use comes back.
pub Tied-give :
    (pages : List Page) (id : ℕ) (fl : List ℕ) (q : Page)
    → q.freed ≡ true
    → id < length pages
    → (get_or pages id blank_page).freed ≡ false
    → Tied pages fl
    → Tied (set pages id q) (id ∷ fl)
Tied-give pages id fl q e h u v = record {
  exact = λ i. ground (arith, v.exact i, v.exact id, is_free-set pages id i q);
  counted = ground (arith, v.counted, total-set free_bit pages id q blank_page);
}

give_back-Inv :
    (id : ℕ) (p : Pool)
    → id < length p.pages
    → (page p id).freed ≡ false
    → Inv p
    → Inv (give_back id p)
unfolding give_back
give_back-Inv id p h u v = Tied-give p.pages id p.free_list (returned (page p id)) refl h u v

abbrev pub InRange : Pool → List ℕ → Type 0
InRange p [] = Unit {0}
InRange p (id ∷ ids) = (id < length p.pages) × InRange p ids

pub InRange-mono :
    (p q : Pool) (ids : List ℕ) → length p.pages ≡ length q.pages → InRange p ids → InRange q ids
InRange-mono p q [] e r = tt
InRange-mono p q (id ∷ ids) e r = (omega arith, InRange-mono p q ids e r.1)

pub length-give_back : (id : ℕ) (p : Pool) → length (give_back id p).pages ≡ length p.pages
unfolding give_back
length-give_back id p = length-set p.pages id (returned (page p id))

-- `free_pages` keeps the invariant, whichever pages of the pool it is given.
pub free_pages-Inv : (ids : List ℕ) (p : Pool) → InRange p ids → Inv p → Inv (free_pages ids p)
unfolding free_pages
free_pages-Inv [] p r v = v
free_pages-Inv (id ∷ ids) p r v = elim (Bool-cases (page p id).freed) [
  | inl f ↦ rw (f, free_pages) (free_pages-Inv ids p r.1 v)
  | inr u ↦
      rw (u, free_pages)
        (free_pages-Inv ids (give_back id p)
          (InRange-mono p (give_back id p) ids (sym (length-give_back id p)) r.1)
          (give_back-Inv id p r.0 u v))
]

pub alloc_loop-Inv :
    (trace_id : String) (now n : ℕ) (p : Pool) (fl : List ℕ)
    → Tied p.pages fl
    → Inv (alloc_loop trace_id now n p fl).0
unfolding alloc_loop
alloc_loop-Inv trace_id now zero p fl v = v
alloc_loop-Inv trace_id now (suc n) p [] v = v
alloc_loop-Inv trace_id now (suc n) p (id ∷ fl) v =
    alloc_loop-Inv trace_id now n
      (record p { pages = set p.pages id (taken trace_id now (page p id)) }) fl
      (Tied-take p.pages id fl (taken trace_id now (page p id)) refl v)

-- `alloc` keeps the invariant, whether or not it finds the pages.
pub alloc-Inv : (trace_id : String) (n now : ℕ) (p : Pool) → Inv p → Inv (alloc trace_id n now p).0
unfolding alloc
alloc-Inv trace_id n now p v = elim (Bool-cases (ltb (length p.free_list) n)) [
  | inl short ↦ rw (short, alloc) v
  | inr enough ↦ rw (enough, alloc) (alloc_loop-Inv trace_id now n p p.free_list v)
]

-- `touch` keeps the invariant, whatever it is given.
pub touch-Inv : (ids : List ℕ) (now : ℕ) (p : Pool) → Inv p → Inv (touch ids now p)
unfolding touch
touch-Inv [] now p v = v
touch-Inv (id ∷ ids) now p v =
    touch-Inv ids now (record p { pages = set p.pages id (record (page p id) { touch_ts = now }) })
      (Tied-same p.pages p.free_list id (record (page p id) { touch_ts = now }) refl v)
