-- ===== src/Matmul/Orders.antt =====
-- Tasks of a list of numbers, run in its order: what one of them sets up and none of them undoes.
use amp.Prelude.{
  ℕ, ◌<◌, ◌≡◌, true, List, [], ◌∷◌, ltb, ◌==◌, has, arith, inl, inr, Bool-cases, ==_iff, subst, sym,
}
use amp.Matmul.{in_order}

-- The list has each number below `n`, and no other.
abbrev pub Covers : List ℕ → ℕ → Type 0
Covers order n = (t : ℕ) → has t order ≡ ltb t n

module _ {ℓ κ} {S : Type ℓ} (step : ℕ → S → S) (P : S → Type κ) where
  pub in_order_keeps :
      (order : List ℕ)
      → ((t : ℕ) → has t order ≡ true → (s : S) → P s → P (step t s))
      → (s : S) → P s
      → P (in_order step order s)
  unfolding in_order
  in_order_keeps [] keeps s h = h
  in_order_keeps (t ∷ ts) keeps s h =
      in_order_keeps ts (λ u later. keeps u (ground (arith, later))) (step t s)
        (keeps t (ground arith) s h)

  in_order_sets :
      (order : List ℕ) (t : ℕ)
      → ((u : ℕ) → has u order ≡ true → (s : S) → P s → P (step u s))
      → ((s : S) → P (step t s))
      → has t order ≡ true
      → (s : S) → P (in_order step order s)
  unfolding in_order
  in_order_sets [] t keeps sets here s = absurd (ground arith)
  in_order_sets (u ∷ us) t keeps sets here s = elim (Bool-cases (u == t)) [
    | inl same ↦
        in_order_keeps us (λ v later. keeps v (ground (arith, later))) (step u s)
          (subst (λ x. P (step x s)) (sym ((==_iff u t).0 same)) (sets s))
    | inr other ↦
        in_order_sets us t (λ v later. keeps v (ground (arith, later))) sets
          (ground (arith, here, other)) (step u s)
  ]

  -- Where the order covers `n` numbers, the task `t` below `n` sets `P`, and no task undoes it.
  pub in_order_lem :
      (order : List ℕ) (n t : ℕ)
      → Covers order n
      → t < n
      → ((u : ℕ) → u < n → (s : S) → P s → P (step u s))
      → ((s : S) → P (step t s))
      → (s : S) → P (in_order step order s)
  in_order_lem order n t covers less keeps sets =
      in_order_sets order t (λ u here. keeps u (ground (arith, covers u))) sets
        (ground (arith, covers t))

  pub in_order_only :
      (order : List ℕ) (n : ℕ)
      → Covers order n
      → ((u : ℕ) → u < n → (s : S) → P s → P (step u s))
      → (s : S) → P s
      → P (in_order step order s)
  in_order_only order n covers keeps =
      in_order_keeps order (λ u here. keeps u (ground (arith, covers u)))
