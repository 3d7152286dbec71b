-- ===== src/Matmul/Sums.antt =====
-- The sums of the tiles of kernels/matmul.cuh are those of the whole rows and columns.
use amp.Prelude.{
  ℕ, zero, suc, ◌+◌, ◌-◌, ◌≤◌, ◌<◌, ◌≡◌, refl, sym, ap, ◌∙◌, ltb, arith, inl, inr, Bool-cases,
}
use amp.Matmul.{Gpu, sum_loop}
use amp.Matmul.Orders.{Covers}

-- The device runs each block and each thread once. A sum that starts at 0 does not change when the
-- product of two padding zeros is added (in IEEE arithmetic it is never the negative zero).
pub record IsGpu (gpu : Gpu) : Type 1 where
  pub all_blocks : (n : ℕ) → Covers (gpu.blocks n) n
  pub all_loaders : (by bx kb n : ℕ) → Covers (gpu.loaders by bx kb n) n
  pub all_writers : (by bx n : ℕ) → Covers (gpu.writers by bx n) n
  pub IsSum : gpu.Float → Type 0
  pub zero-IsSum : IsSum gpu.f_zero
  pub add-IsSum : (x y : gpu.Float) → IsSum x → IsSum (gpu.add x y)
  pub add_padding : (x : gpu.Float) → IsSum x → gpu.add x (gpu.mul gpu.f_zero gpu.f_zero) ≡ x

module _ (gpu : Gpu) where
  pub sum_loop-shift :
      (f g : ℕ → gpu.Float) (kb n i : ℕ) (acc : gpu.Float)
      → ((j : ℕ) → j < i + n → f j ≡ g (kb + j))
      → sum_loop gpu f n i acc ≡ sum_loop gpu g n (kb + i) acc
  unfolding sum_loop
  sum_loop-shift f g kb zero i acc same = refl
  sum_loop-shift f g kb (suc n) i acc same =
      let here : gpu.add acc (f i) ≡ gpu.add acc (g (kb + i)) =
        ap (gpu.add acc) (same i (omega arith)) in
      let next : kb + (i + 1) ≡ kb + i + 1 = omega arith in
      sum_loop-shift f g kb n (i + 1) (gpu.add acc (f i)) (λ j less. same j (omega arith))
      ∙ ap (λ x. sum_loop gpu g n x (gpu.add acc (f i))) next
      ∙ ap (sum_loop gpu g n (kb + i + 1)) here

  pub sum_loop-same :
      (f g : ℕ → gpu.Float) (n i : ℕ) (acc : gpu.Float)
      → ((j : ℕ) → f j ≡ g j)
      → sum_loop gpu f n i acc ≡ sum_loop gpu g n i acc
  unfolding sum_loop
  sum_loop-same f g zero i acc same = refl
  sum_loop-same f g (suc n) i acc same =
      sum_loop-same f g n (i + 1) (gpu.add acc (f i)) same
      ∙ ap (λ x. sum_loop gpu g n (i + 1) (gpu.add acc x)) (same i)

  pub sum_loop-append :
      (f : ℕ → gpu.Float) (n rest i : ℕ) (acc : gpu.Float)
      → sum_loop gpu f (n + rest) i acc ≡ sum_loop gpu f rest (i + n) (sum_loop gpu f n i acc)
  unfolding sum_loop
  sum_loop-append f zero rest i acc =
      let start : 0 + rest ≡ rest = omega arith in
      let same : i ≡ i + 0 = omega arith in
      ap (λ x. sum_loop gpu f x i acc) start ∙ ap (λ x. sum_loop gpu f rest x acc) same
  sum_loop-append f (suc n) rest i acc =
      let start : suc n + rest ≡ suc (n + rest) = omega arith in
      let next : i + 1 + n ≡ i + suc n = omega arith in
      ap (λ x. sum_loop gpu f x i acc) start
      ∙ sum_loop-append f n rest (i + 1) (gpu.add acc (f i))
      ∙ ap (λ x. sum_loop gpu f rest x (sum_loop gpu f n (i + 1) (gpu.add acc (f i)))) next

module _ (gpu : Gpu) (ok : IsGpu gpu) where
  pub sum_loop-IsSum :
      (f : ℕ → gpu.Float) (n i : ℕ) (acc : gpu.Float)
      → ok.IsSum acc
      → ok.IsSum (sum_loop gpu f n i acc)
  unfolding sum_loop
  sum_loop-IsSum f zero i acc h = h
  sum_loop-IsSum f (suc n) i acc h =
      sum_loop-IsSum f n (i + 1) (gpu.add acc (f i)) (ok.add-IsSum acc (f i) h)

  -- Past the end of the matrices the sum does not change.
  pub sum_loop-padding :
      (f : ℕ → gpu.Float) (k n i : ℕ) (acc : gpu.Float)
      → ((j : ℕ) → k ≤ j → f j ≡ gpu.mul gpu.f_zero gpu.f_zero)
      → k ≤ i
      → ok.IsSum acc
      → sum_loop gpu f n i acc ≡ acc
  unfolding sum_loop
  sum_loop-padding f k zero i acc pads past h = refl
  sum_loop-padding f k (suc n) i acc pads past h =
      sum_loop-padding f k n (i + 1) (gpu.add acc (f i)) pads (omega arith)
        (ok.add-IsSum acc (f i) h)
      ∙ ap (gpu.add acc) (pads i past)
      ∙ ok.add_padding acc h

  -- A tile's turn and the rest of the sum are the sum.
  pub sum_loop-tile :
      (f : ℕ → gpu.Float) (k bk kb : ℕ) (acc : gpu.Float)
      → ((j : ℕ) → k ≤ j → f j ≡ gpu.mul gpu.f_zero gpu.f_zero)
      → kb < k
      → ok.IsSum acc
      → sum_loop gpu f (k - (kb + bk)) (kb + bk) (sum_loop gpu f bk kb acc)
        ≡ sum_loop gpu f (k - kb) kb acc
  unfolding sum_loop
  sum_loop-tile f k bk kb acc pads less h = elim (Bool-cases (ltb k (kb + bk))) [
    | inr whole ↦
        let parts : bk + (k - (kb + bk)) ≡ k - kb = ground arith in
        sym (sum_loop-append gpu f bk (k - (kb + bk)) kb acc)
        ∙ ap (λ x. sum_loop gpu f x kb acc) parts
    | inl short ↦
        let none_left : k - (kb + bk) ≡ 0 = ground arith in
        let parts : bk ≡ (k - kb) + (bk - (k - kb)) = ground arith in
        let d = k - kb in
        ap (λ x. sum_loop gpu f x (kb + bk) (sum_loop gpu f bk kb acc)) none_left
        ∙ ap (λ x. sum_loop gpu f x kb acc) parts
        ∙ sum_loop-append gpu f d (bk - d) kb acc
        ∙ sum_loop-padding f k (bk - d) (kb + d) (sum_loop gpu f d kb acc) pads (omega arith)
            (sum_loop-IsSum f d kb acc h)
  ]
