-- ===== src/Flash/Softmax.antt =====
-- The online softmax of kernels/flash_attn.cu in exact arithmetic: the running sum and output of a row
-- are those of the softmax over all scores so far.
use amp.Prelude.{ℕ, zero, suc, ◌+◌, ◌≤◌, ◌<◌, ◌≡◌, refl, sym, ap, subst, ◌∙◌, true, arith, inl, inr}
use amp.Matmul.{Gpu, sum_loop}
use amp.Matmul.Sums.{sum_loop-append}
use amp.Flash.{FlashOps, Row, row_step, max_loop, start_row}
use amp.Flash.Exact.{IsExact, IsReal, total, mul-total, total-congr, total-tile}

module _ (gpu : Gpu) (ops : FlashOps gpu) (exact : IsExact gpu ops) where
  open gpu use {Float, f_zero, add, mul}
  open ops use {f_one, neg_big, lt, sub, div, fmax, exp}

  -- The scores of a row, with the mark at a masked key, and the values.
  module _ (s : ℕ → Float) (v : ℕ → ℕ → Float) (real : (j : ℕ) → IsReal gpu ops exact (s j)) where
    abbrev pub weight : Float → ℕ → Float
    weight c j = exp (sub (s j) c)

    abbrev pub weighted : Float → ℕ → ℕ → Float
    weighted c d j = mul (weight c j) (v j d)

    weight-shift :
        (m c : Float) (j : ℕ)
        → exact.IsScore m
        → exact.IsScore c
        → mul (exp (sub m c)) (weight m j) ≡ weight c j
    weight-shift m c j hm hc = elim (real j) [
      | inl masked ↦
          ap (λ x. mul (exp (sub m c)) (exp (sub x m))) masked
          ∙ ap (mul (exp (sub m c))) (exact.exp_masked m hm)
          ∙ exact.mul_zero (exp (sub m c))
          ∙ sym (exact.exp_masked c hc)
          ∙ ap (λ x. exp (sub x c)) (sym masked)
      | inr score ↦
          exact.mul_comm (exp (sub m c)) (weight m j) ∙ exact.exp_add (s j) m c score hm hc
    ]

    total-shift :
        (m c : Float) (n : ℕ)
        → exact.IsScore m
        → exact.IsScore c
        → mul (exp (sub m c)) (total gpu ops exact (weight m) n) ≡ total gpu ops exact (weight c) n
    total-shift m c n hm hc =
        mul-total gpu ops exact (exp (sub m c)) (weight m) n
        ∙ total-congr gpu ops exact (λ j. mul (exp (sub m c)) (weight m j)) (weight c) n
            (λ j. weight-shift m c j hm hc)

    weighted-shift :
        (m c : Float) (d n : ℕ)
        → exact.IsScore m
        → exact.IsScore c
        → mul (exp (sub m c)) (total gpu ops exact (weighted m d) n)
          ≡ total gpu ops exact (weighted c d) n
    weighted-shift m c d n hm hc =
        mul-total gpu ops exact (exp (sub m c)) (weighted m d) n
        ∙ total-congr gpu ops exact (λ j. mul (exp (sub m c)) (weighted m d j)) (weighted c d) n
            (λ j.
              sym (exact.mul_assoc (exp (sub m c)) (weight m j) (v j d))
              ∙ ap (λ x. mul x (v j d)) (weight-shift m c j hm hc))

    -- After `n` keys: relative to every score `c`, the sum is that of the weights, and the output times
    -- the sum that of the weighted values.
    pub record Inv (dim n : ℕ) (r : Row gpu ops) : Type 0 where
      pub max : IsReal gpu ops exact r.m
      pub sum :
          (c : Float)
          → exact.IsScore c
          → mul (exp (sub r.m c)) r.l ≡ total gpu ops exact (weight c) n
      pub out :
          (c : Float) (d : ℕ)
          → d < dim
          → exact.IsScore c
          → mul (exp (sub r.m c)) (mul r.l (r.o d)) ≡ total gpu ops exact (weighted c d) n

    pub start_row-Inv : (dim : ℕ) → Inv dim 0 (start_row gpu ops)
    unfolding sum_loop
    start_row-Inv dim = record {
      max = inl refl;
      sum = λ c h. exact.mul_zero _;
      out = λ c d ld h. ap (mul _) (exact.mul_zero f_zero) ∙ exact.mul_zero _;
    }

    weight-NonNeg : (c : Float) (j : ℕ) → exact.IsScore c → exact.NonNeg (weight c j)
    weight-NonNeg c j hc = elim (real j) [
      | inl masked ↦
          subst exact.NonNeg (sym (ap (λ x. exp (sub x c)) masked ∙ exact.exp_masked c hc))
            exact.NonNeg-zero
      | inr score ↦ exact.NonNeg-positive (weight c j) (exact.exp_positive (s j) c score hc)
    ]

    -- The weights of at least one key, of which the first is not masked, have a positive sum.
    pub total-positive :
        (c : Float) (n : ℕ)
        → exact.IsScore (s 0)
        → exact.IsScore c
        → lt f_zero (total gpu ops exact (weight c) (suc n)) ≡ true
    unfolding sum_loop
    total-positive c zero first hc =
        ap (lt f_zero) (exact.zero_add (weight c 0)) ∙ exact.exp_positive (s 0) c first hc
    total-positive c (suc n) first hc =
        let more : suc (suc n) ≡ suc n + 1 = omega arith in
        ap (λ x. lt f_zero (total gpu ops exact (weight c) x)) more
        ∙ ap (lt f_zero) (sum_loop-append gpu (weight c) (suc n) 1 0 f_zero)
        ∙ exact.positive-add (total gpu ops exact (weight c) (suc n)) (weight c (0 + suc n))
            (total-positive c n first hc) (weight-NonNeg c (0 + suc n) hc)

    max_loop-IsScore :
        (ss : ℕ → Float) (k n j : ℕ) (m : Float)
        → ((i : ℕ) → i < k → IsReal gpu ops exact (ss i))
        → j + n ≤ k
        → exact.IsScore m
        → exact.IsScore (max_loop gpu ops ss n j m)
    unfolding max_loop
    max_loop-IsScore ss k zero j m reals within h = h
    max_loop-IsScore ss k (suc n) j m reals within h =
        max_loop-IsScore ss k n (j + 1) (fmax m (ss j)) reals (omega arith)
          (exact.fmax_left m (ss j) h (reals j (omega arith)))

    module _ (ss : ℕ → Float) (sv : ℕ → ℕ → Float) (dim n k : ℕ) (first : exact.IsScore (s 0))
        (fresh : exact.IsScore (s n)) (scores : (j : ℕ) → j < suc k → ss j ≡ s (n + j))
        (values : (j d : ℕ) → j < suc k → d < dim → sv j d ≡ v (n + j) d) where
      tile_max-IsScore : exact.IsScore (max_loop gpu ops ss (suc k) 0 neg_big)
      unfolding max_loop
      tile_max-IsScore =
          let start : n ≡ n + 0 = omega arith in
          let here : exact.IsScore (ss 0) =
            subst exact.IsScore (ap s start ∙ sym (scores 0 (omega arith))) fresh in
          max_loop-IsScore ss (suc k) k (0 + 1) (fmax neg_big (ss 0))
            (λ i less. subst (IsReal gpu ops exact) (sym (scores i less)) (real (n + i)))
            (omega arith) (exact.fmax_right neg_big (ss 0) (inl refl) here)

      module _ (r : Row gpu ops) (inv : Inv dim n r) where
        m_new : Float
        m_new = fmax r.m (max_loop gpu ops ss (suc k) 0 neg_big)

        m_new-IsScore : exact.IsScore m_new
        unfolding m_new
        m_new-IsScore = exact.fmax_right r.m _ inv.max tile_max-IsScore

        l_new : Float
        unfolding m_new
        l_new =
            add (mul (exp (sub r.m m_new)) r.l)
              (total gpu ops exact (λ j. exp (sub (ss j) m_new)) (suc k))

        l_new_lem : l_new ≡ total gpu ops exact (weight m_new) (n + suc k)
        unfolding l_new
        l_new_lem =
            ap (λ x. add x (total gpu ops exact (λ j. exp (sub (ss j) m_new)) (suc k)))
              (inv.sum m_new m_new-IsScore)
            ∙ total-tile gpu ops exact (λ j. exp (sub (ss j) m_new)) (weight m_new) n (suc k)
                (λ j less. ap (λ x. exp (sub x m_new)) (scores j less))

        l_new-positive : lt f_zero l_new ≡ true
        l_new-positive =
            let size : n + suc k ≡ suc (n + k) = omega arith in
            ap (lt f_zero) (l_new_lem ∙ ap (total gpu ops exact (weight m_new)) size)
            ∙ total-positive m_new (n + k) first m_new-IsScore

        o_new : ℕ → Float
        unfolding m_new l_new
        o_new d = add (mul (div (mul r.l (exp (sub r.m m_new))) l_new) (r.o d)) (
            mul (div f_one l_new)
              (total gpu ops exact (λ j. mul (exp (sub (ss j) m_new)) (sv j d)) (suc k)))

        row_step_lem : row_step gpu ops (suc k) ss sv r ≡ record { m = m_new; l = l_new; o = o_new }
        unfolding row_step o_new
        row_step_lem = rw l_new-positive refl

        o_new_lem :
            (d : ℕ)
            → d < dim
            → mul l_new (o_new d) ≡ total gpu ops exact (weighted m_new d) (n + suc k)
        unfolding o_new
        o_new_lem d ld =
            let alpha = exp (sub r.m m_new) in
            let pv = total gpu ops exact (λ j. mul (exp (sub (ss j) m_new)) (sv j d)) (suc k) in
            let old : mul l_new (mul (div (mul r.l alpha) l_new) (r.o d))
                ≡ total gpu ops exact (weighted m_new d) n =
              sym (exact.mul_assoc l_new (div (mul r.l alpha) l_new) (r.o d))
              ∙ ap (λ x. mul x (r.o d))
                  (exact.mul_div l_new (mul r.l alpha) l_new-positive ∙ exact.mul_comm r.l alpha)
              ∙ exact.mul_assoc alpha r.l (r.o d)
              ∙ inv.out m_new d ld m_new-IsScore in
            let new : mul l_new (mul (div f_one l_new) pv) ≡ pv =
              sym (exact.mul_assoc l_new (div f_one l_new) pv)
              ∙ ap (λ x. mul x pv) (exact.mul_div l_new f_one l_new-positive)
              ∙ exact.one_mul pv in
            exact.mul_add l_new _ _
            ∙ ap (λ x. add x (mul l_new (mul (div f_one l_new) pv))) old
            ∙ ap (add (total gpu ops exact (weighted m_new d) n)) new
            ∙ total-tile gpu ops exact (λ j. mul (exp (sub (ss j) m_new)) (sv j d))
                (weighted m_new d) n (suc k)
                (λ j less.
                  ap (λ x. mul (exp (sub x m_new)) (sv j d)) (scores j less)
                  ∙ ap (mul (exp (sub (s (n + j)) m_new))) (values j d less ld))

        pub row_step-Inv : Inv dim (n + suc k) (row_step gpu ops (suc k) ss sv r)
        unfolding m_new l_new o_new
        row_step-Inv = subst (Inv dim (n + suc k)) (sym row_step_lem) (record {
          max = inr m_new-IsScore;
          sum = λ c h.
              ap (mul (exp (sub m_new c))) l_new_lem
              ∙ total-shift m_new c (n + suc k) m_new-IsScore h;
          out = λ c d ld h.
              ap (mul (exp (sub m_new c))) (o_new_lem d ld)
              ∙ weighted-shift m_new c d (n + suc k) m_new-IsScore h;
        })
