-- ===== src/Flash/Blocks.antt =====
-- A block of kernels/flash_attn.cu whose rows are all rows of the queries: each tile is loaded whole, and
-- each row ends with the softmax over the keys that it may see.
use amp.Prelude.{
  ℕ, zero, suc, ◌+◌, ◌-◌, ◌*◌, ◌/◌, ◌≤◌, ◌<◌, ◌≡◌, refl, sym, ap, subst, ◌∙◌, true, false,
  if◌then◌else◌, ltb, leb, arith, inl, inr, Bool-cases,
}
use amp.Matmul.{Gpu}
use amp.Matmul.Orders.{Covers}
use amp.Flash.{
  FlashOps, Block, Row, q_row, is_live, load_kv, tile_score, row_step, kv_loop,
  flash_attn_fwd_kernel, start_row,
}
use amp.Flash.Loads.{raw_score, is_masked, score, value, visible, load_kv_lem, tile_score_lem}
use amp.Flash.Exact.{IsExact, IsReal, total, total-vanish, total_below, zero_mul}
use amp.Flash.Softmax.{Inv, start_row-Inv, row_step-Inv, total-positive}

tile_start : (bc s t : ℕ) → 0 < bc → t < (s + bc - 1) / bc → t * bc < s
tile_start bc s t pos less = grind arith

tiles_cover : (bc s : ℕ) → 0 < bc → s ≤ (s + bc - 1) / bc * bc
tiles_cover bc s pos = grind arith

mul_mono : (x y c : ℕ) → x ≤ y → x * c ≤ y * c
mul_mono x y c le = grind arith

-- A tile's start is a multiple of the rows of a block, so that no row of the block lies before it when
-- another does not.
same_side :
    (step t p br row other : ℕ)
    → row < br
    → other < br
    → (t * step) * br ≤ p * br + row
    → (t * step) * br ≤ p * br + other
same_side step t p br row other lr lo h = elim (Bool-cases (leb (t * step) p)) [
  | inl before ↦ let le : t * step ≤ p = ground arith in omega (arith, mul_mono (t * step) p br le)
  | inr after ↦
      let le : p + 1 ≤ t * step = ground arith in
      absurd (omega (arith, mul_mono (p + 1) (t * step) br le))
]

module _ (gpu : Gpu) (ops : FlashOps gpu) (b : Block gpu ops) where
  open gpu use {Float, f_zero, mul}
  open ops use {neg_big, to_float}

  module _ (exact : IsExact gpu ops)
      (all_loaders : (by bx kb n : ℕ) → Covers (gpu.loaders by bx kb n) n)
      (some_dim : 0 < b.head_dim) (some_row : 0 < b.br) (step : ℕ)
      (whole_tiles : b.bc ≡ step * b.br) (some_key : 0 < b.bc) (full : q_row gpu ops b b.br ≤ b.s_q)
      (in_range : (row j : ℕ) → exact.IsScore (raw_score gpu ops b row j)) where
    score-IsReal : (row j : ℕ) → IsReal gpu ops exact (score gpu ops b row j)
    score-IsReal row j = elim (Bool-cases (is_masked gpu ops b row j)) [
      | inl masked ↦ inl (ap (λ t. if t then neg_big else raw_score gpu ops b row j) masked)
      | inr seen ↦ inr (
          subst exact.IsScore
            (sym (ap (λ t. if t then neg_big else raw_score gpu ops b row j) seen))
            (in_range row j))
    ]

    score-IsScore :
        (row j : ℕ) → is_masked gpu ops b row j ≡ false → exact.IsScore (score gpu ops b row j)
    score-IsScore row j seen =
        subst exact.IsScore (sym (ap (λ t. if t then neg_big else raw_score gpu ops b row j) seen))
          (in_range row j)

    -- The rows of a block are in a turn together, or none of them is.
    live_together :
        (kv_tile row other : ℕ)
        → row < b.br
        → other < b.br
        → is_live gpu ops b (kv_tile * b.bc) row ≡ true
        → is_live gpu ops b (kv_tile * b.bc) other ≡ true
    live_together kv_tile row other lr lo live =
        let start : kv_tile * b.bc ≡ (kv_tile * step) * b.br =
          ap (λ x. kv_tile * x) whole_tiles ∙ omega arith in
        let side = same_side step kv_tile b.q_tile b.br row other lr lo in ground arith

    -- What a row has at the end: the softmax over at least the keys that it may see.
    abbrev Done : ℕ → Row gpu ops → Type 0
    Done row r =
        (n : ℕ) × (visible gpu ops b row ≤ n)
        × Inv gpu ops exact (score gpu ops b row) (value gpu ops b) (score-IsReal row) b.head_dim n
            r

    kv_loop_stays :
        (turns kv_tile row : ℕ) (sk sv : ℕ → ℕ → Float) (rows : ℕ → Row gpu ops)
        → is_live gpu ops b (kv_tile * b.bc) row ≡ false
        → row < b.br
        → kv_loop gpu ops b turns kv_tile sk sv rows row ≡ rows row
    unfolding kv_loop
    kv_loop_stays zero kv_tile row sk sv rows gone lr = refl
    kv_loop_stays (suc turns) kv_tile row sk sv rows gone lr =
        let later : (kv_tile + 1) * b.bc ≡ kv_tile * b.bc + b.bc = omega arith in
        let gone' : is_live gpu ops b ((kv_tile + 1) * b.bc) row ≡ false = ground arith in
        let kv_start = kv_tile * b.bc in
        let sk' = load_kv gpu ops b b.k kv_start sk in
        let sv' = load_kv gpu ops b b.v kv_start sv in
        kv_loop_stays turns (kv_tile + 1) row sk' sv' _ gone' lr
        ∙ ap
            (λ t.
              if t
              then row_step gpu ops b.bc (tile_score gpu ops b sk' kv_start row) sv' (rows row)
              else rows row)
            gone

    kv_loop-Done :
        (turns kv_tile row : ℕ) (sk sv : ℕ → ℕ → Float) (rows : ℕ → Row gpu ops)
        → kv_tile + turns ≡ (b.s_kv + b.bc - 1) / b.bc
        → row < b.br
        → Inv gpu ops exact
            (score gpu ops b row)
            (value gpu ops b)
            (score-IsReal row)
            b.head_dim
            (kv_tile * b.bc)
            (rows row)
        → Done row (kv_loop gpu ops b turns kv_tile sk sv rows row)
    unfolding kv_loop
    kv_loop-Done zero kv_tile row sk sv rows last lr inv =
        let end : kv_tile ≡ (b.s_kv + b.bc - 1) / b.bc = omega (arith, last) in
        let all : b.s_kv ≤ kv_tile * b.bc =
          subst (λ x. b.s_kv ≤ x * b.bc) (sym end) (tiles_cover b.bc b.s_kv some_key) in
        (kv_tile * b.bc, ground arith, inv)
    kv_loop-Done (suc turns) kv_tile row sk sv rows last lr inv =
        let kv_start = kv_tile * b.bc in
        let sk' = load_kv gpu ops b b.k kv_start sk in
        let sv' = load_kv gpu ops b b.v kv_start sv in
        let next = λ (x : ℕ).
          if is_live gpu ops b kv_start x
          then row_step gpu ops b.bc (tile_score gpu ops b sk' kv_start x) sv' (rows x)
          else rows x in
        let step_row =
          row_step gpu ops b.bc (tile_score gpu ops b sk' kv_start row) sv' (rows row) in
        let before : kv_start < b.s_kv =
          tile_start b.bc b.s_kv kv_tile some_key (omega (arith, last)) in
        elim (Bool-cases (is_live gpu ops b kv_start row)) [
          | inr gone ↦
              let stays = kv_loop_stays (suc turns) kv_tile row sk sv rows gone lr in
              subst (Done row) (sym stays) (kv_start, ground arith, inv)
          | inl live ↦
              let fresh : is_masked gpu ops b row kv_start ≡ false = ground arith in
              let first : is_masked gpu ops b row 0 ≡ false = ground arith in
              let together = λ (x : ℕ) (lx : x < b.br). live_together kv_tile row x lr lx live in
              let k = b.bc - 1 in
              let bc_is : b.bc ≡ suc k = omega arith in
              let here : next row
                  ≡ row_step gpu ops (suc k) (tile_score gpu ops b sk' kv_start row) sv'
                      (rows row) =
                ap (λ t. if t then step_row else rows row) live
                ∙ ap
                    (λ x. row_step gpu ops x (tile_score gpu ops b sk' kv_start row) sv' (rows row))
                    bc_is in
              let size : kv_start + suc k ≡ (kv_tile + 1) * b.bc = omega arith in
              let scores : (j : ℕ)
                  → j < suc k
                  → tile_score gpu ops b sk' kv_start row j ≡ score gpu ops b row (kv_start + j) =
                λ j lj. tile_score_lem gpu ops b all_loaders sk' kv_start row j (λ d ld.
                  load_kv_lem gpu ops b all_loaders some_dim some_row full kv_start together b.k sk
                    j d (omega (arith, lj)) ld) in
              let values : (j d : ℕ)
                  → j < suc k
                  → d < b.head_dim
                  → sv' j d ≡ value gpu ops b (kv_start + j) d =
                λ j d lj ld.
                  load_kv_lem gpu ops b all_loaders some_dim some_row full kv_start together b.v sv
                    j d (omega (arith, lj)) ld in
              let stepped =
                row_step-Inv gpu ops exact (score gpu ops b row) (value gpu ops b)
                  (score-IsReal row) (tile_score gpu ops b sk' kv_start row) sv' b.head_dim kv_start
                  k (score-IsScore row 0 first) (score-IsScore row kv_start fresh) scores values
                  (rows row) inv in
              let moved : Inv gpu ops exact (score gpu ops b row) (value gpu ops b)
                  (score-IsReal row) b.head_dim ((kv_tile + 1) * b.bc) (next row) =
                subst
                  (λ x.
                    Inv gpu ops exact (score gpu ops b row) (value gpu ops b) (score-IsReal row)
                      b.head_dim x (next row))
                  size
                  (subst
                    (Inv gpu ops exact (score gpu ops b row) (value gpu ops b) (score-IsReal row)
                      b.head_dim (kv_start + suc k))
                    (sym here) stepped) in
              kv_loop-Done turns (kv_tile + 1) row sk' sv' next (omega (arith, last)) lr moved
        ]

    flash-Done : (row : ℕ) → row < b.br → Done row (flash_attn_fwd_kernel gpu ops b row)
    unfolding flash_attn_fwd_kernel
    flash-Done row lr =
        let none_yet : 0 ≡ 0 * b.bc = omega arith in
        kv_loop-Done ((b.s_kv + b.bc - 1) / b.bc) 0 row (gpu.garbage b.q_tile b.bh)
          (gpu.garbage b.q_tile b.bh) (λ row. start_row gpu ops) (omega arith) lr
          (subst
            (λ x.
              Inv gpu ops exact (score gpu ops b row) (value gpu ops b) (score-IsReal row)
                b.head_dim x (start_row gpu ops))
            none_yet
            (start_row-Inv gpu ops exact (score gpu ops b row) (value gpu ops b) (score-IsReal row)
              b.head_dim))

    -- The sums over the keys so far are those over the keys that the row may see.
    sums_visible :
        (row n : ℕ) (c : Float) (f g : ℕ → Float)
        → visible gpu ops b row ≤ n
        → ((j : ℕ) → is_masked gpu ops b row j ≡ true → f j ≡ f_zero)
        → ((j : ℕ) → is_masked gpu ops b row j ≡ false → f j ≡ g j)
        → total gpu ops exact f n ≡ total gpu ops exact g (visible gpu ops b row)
    sums_visible row n c f g more gone same =
        let parts : n ≡ visible gpu ops b row + (n - visible gpu ops b row) = omega (arith, more) in
        ap (total gpu ops exact f) parts
        ∙ total-vanish gpu ops exact f (visible gpu ops b row) (n - visible gpu ops b row)
            (λ j past. gone j (ground arith))
        ∙ total_below gpu ops exact f g (visible gpu ops b row) (λ j less. same j (ground arith))

    -- A block whose rows are all rows of the queries, in exact arithmetic and in whatever order its
    -- threads load: relative to every score gpu ops b `c`, what a row ends with is the softmax of the scores of
    -- the keys that it may see, applied to their values. The weights have a positive sum, and the
    -- output times the sum is the weighted sum of the values.
    pub flash_attn_fwd_kernel_lem :
        (row d : ℕ) (c : Float)
        → row < b.br
        → d < b.head_dim
        → 0 < b.s_kv
        → exact.IsScore c
        → let r = flash_attn_fwd_kernel gpu ops b row in
          let w = λ (j : ℕ). ops.exp (ops.sub (raw_score gpu ops b row j) c) in
          (ops.lt f_zero (total gpu ops exact w (visible gpu ops b row)) ≡ true)
          × (mul (total gpu ops exact w (visible gpu ops b row)) (r.o d)
              ≡ total gpu ops exact
                  (λ j. mul (w j) (to_float (b.v (j * b.head_dim + d))))
                  (visible gpu ops b row))
    flash_attn_fwd_kernel_lem row d c lr ld some_kv hc =
        let (n, more, inv) = flash-Done row lr in
        let r = flash_attn_fwd_kernel gpu ops b row in
        let w = λ (j : ℕ). ops.exp (ops.sub (raw_score gpu ops b row j) c) in
        let s = λ (j : ℕ). ops.exp (ops.sub (score gpu ops b row j) c) in
        let seen : (j : ℕ) → is_masked gpu ops b row j ≡ false → s j ≡ w j = λ j open_.
          ap (λ t. ops.exp (ops.sub (if t then neg_big else raw_score gpu ops b row j) c)) open_ in
        let gone : (j : ℕ) → is_masked gpu ops b row j ≡ true → s j ≡ f_zero = λ j masked.
          ap (λ t. ops.exp (ops.sub (if t then neg_big else raw_score gpu ops b row j) c)) masked
          ∙ exact.exp_masked c hc in
        let wv = λ (j : ℕ). mul (w j) (to_float (b.v (j * b.head_dim + d))) in
        let weights = sums_visible row n c s w more gone seen in
        let values =
          sums_visible row n c (λ j. mul (s j) (value gpu ops b j d)) wv more
            (λ j masked.
              ap (λ x. mul x (value gpu ops b j d)) (gone j masked)
              ∙ zero_mul gpu ops exact (value gpu ops b j d))
            (λ j open_.
              (let inside : ltb j b.s_kv ≡ true = ground arith in
                ap (λ x. mul x (value gpu ops b j d)) (seen j open_)
                ∙ ap (λ t. mul (w j) (if t then to_float (b.v (j * b.head_dim + d)) else f_zero))
                    inside)) in
        let scale = ops.exp (ops.sub r.m c) in
        let count : n ≡ suc (n - 1) = ground arith in
        let first : is_masked gpu ops b row 0 ≡ false = ground arith in
        (
          ap (ops.lt f_zero) (sym weights ∙ ap (total gpu ops exact s) count)
              ∙ total-positive gpu ops exact (score gpu ops b row) (value gpu ops b)
                  (score-IsReal row) c (n - 1) (score-IsScore row 0 first) hc,
          ap (λ x. mul x (r.o d)) (sym weights ∙ sym (inv.sum c hc))
              ∙ exact.mul_assoc scale r.l (r.o d)
              ∙ inv.out c d ld hc
              ∙ values,
        )
