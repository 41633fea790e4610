-- ===== src/Table/Order.antt =====
-- ORDER BY: the row of the least key, and sorting as a permutation.
use mathlib.Core.List.{Memᴰ}
use smdr.Prelude.{
  ℕ, ◌≤◌, ◌≡◌, refl, inl, inr, none, some, List, [], ◌∷◌, arith, leb, Option-cases, Bool-cases, All,
}
use smdr.Table.{least}

module _ {ℓ} {A : Type ℓ} (k : A → ℕ) where
  pub least-none : (t : List A) → least k t ≡ none → t ≡ []
  unfolding least
  least-none [] h = refl
  least-none (r ∷ t) h = ground arith

  All-le : (m n : ℕ) (t : List A) → m ≤ n → All (λ b. n ≤ k b) t → All (λ b. m ≤ k b) t
  All-le m n [] h a = tt
  All-le m n (r ∷ t) h a = (omega arith, All-le m n t h a.1)

  -- No row of the table has a smaller key than the row of ORDER BY k LIMIT 1.
  pub least-le : (t : List A) (a : A) → least k t ≡ some a → All (λ b. k a ≤ k b) t
  unfolding least
  least-le [] a h = cc
  least-le (r ∷ t) a h = elim (Option-cases (least k t)) [
    | inl e ↦ (ground arith, rw (least-none t e) tt)
    | inr (s, e) ↦ (ground arith, All-le (k a) (k s) t (ground arith) (least-le t s e))
  ]

  pub least-mem : (t : List A) (a : A) → least k t ≡ some a → Memᴰ a t
  unfolding least
  least-mem [] a h = cc
  least-mem (r ∷ t) a h = elim (Option-cases (least k t)) [
    | inl e ↦ Memᴰ.head (ground arith)
    | inr (s, e) ↦ elim (Bool-cases (leb (k r) (k s))) [
      | inl y ↦ Memᴰ.head (ground arith)
      | inr n ↦ Memᴰ.tail (least-mem t a (ground arith))
    ]
  ]
