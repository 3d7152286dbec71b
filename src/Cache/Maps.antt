-- ===== src/Cache/Maps.antt =====
-- The maps from keys that stand for the directories and for the L1 tables (src/cache.cpp,
-- src/cache_fast.cpp).
use amp.Prelude.{
  ◌≡◌, refl, ap, ◌∙◌, sym, true, false, List, [], ◌∷◌, none, some, if◌then◌else◌, ◌==◌, arith, inl,
  inr, Bool-cases, ==_iff, ◌≢◌,
}
use amp.Cache.{Key, same, lookup, assign, remove}

pub same_self : (k : Key) → same k k ≡ true
same_self [] = refl
same_self (x ∷ xs) = ground (arith, same_self xs)

pub same→≡ : (j k : Key) → same j k ≡ true → j ≡ k
same→≡ [] [] h = refl
same→≡ [] (y ∷ ys) h = grind arith
same→≡ (x ∷ xs) [] h = grind arith
same→≡ (x ∷ xs) (y ∷ ys) h = elim (Bool-cases (x == y)) [
  | inl e ↦
      let heads : x ≡ y = (==_iff x y).0 e in
      let rest : same xs ys ≡ true = rw e at h in let tails : xs ≡ ys = same→≡ xs ys rest in cc
  | inr e ↦ absurd (ground arith)
]

pub lookup-assign_self {ℓ} :
    {A : Type ℓ} (k : Key) (a : A) (m : List (Key × A)) → lookup k (assign k a m) ≡ some a
lookup-assign_self k a [] = rw (same_self k) refl
lookup-assign_self k a ((j, b) ∷ m) = elim (Bool-cases (same j k)) [
  | inl e ↦ rw (e, e) refl
  | inr e ↦ rw (e, e) (lookup-assign_self k a m)
]

pub same_ne : (j k : Key) → j ≢ k → same j k ≡ false
same_ne j k ne = elim (Bool-cases (same j k)) [ inl e ↦ absurd (ne (same→≡ j k e)) | inr e ↦ e ]

pub lookup-assign_ne {ℓ} :
    {A : Type ℓ} (k l : Key) (a : A) (m : List (Key × A))
    → l ≢ k
    → lookup l (assign k a m) ≡ lookup l m
lookup-assign_ne k l a [] ne = rw (same_ne k l (λ e. ne (sym e))) refl
lookup-assign_ne k l a ((j, b) ∷ m) ne = elim (Bool-cases (same j k)) [
  | inl e ↦
      let other : same j l ≡ false = same_ne j l (λ f. ne (sym f ∙ same→≡ j k e)) in
      rw (e, other) refl
  | inr e ↦ elim (Bool-cases (same j l)) [
    | inl f ↦ rw (e, f) refl
    | inr f ↦ rw (e, f) (lookup-assign_ne k l a m ne)
  ]
]

pub lookup-remove {ℓ} :
    {A : Type ℓ} (k l : Key) (m : List (Key × A))
    → lookup l (remove k m) ≡ (if same l k then none else lookup l m)
lookup-remove k l [] = ground arith
lookup-remove k l ((j, b) ∷ m) = elim (Bool-cases (same j k)) [
  | inl e ↦ elim (Bool-cases (same l k)) [
    | inl f ↦ rw (e, f) (lookup-remove k l m ∙ rw f refl)
    | inr f ↦
        let other : same j l ≡ false =
          same_ne j l (λ g. absurd (ground (arith, ap (λ x. same x k) g))) in
        rw (e, f, other) (lookup-remove k l m ∙ rw f refl)
  ]
  | inr e ↦ elim (Bool-cases (same j l)) [
    | inl f ↦
        let other : same l k ≡ false = ap (λ x. same x k) (sym (same→≡ j l f)) ∙ e in
        rw (e, other, f) refl
    | inr f ↦ rw (e, f) (lookup-remove k l m)
  ]
]
