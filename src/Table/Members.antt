-- ===== src/Table/Members.antt =====
-- Rows of a table as members of its list.
use mathlib.Core.List.{Memᴰ, List, ◌∷◌}
use smdr.Prelude.{
  Bool, All, ◌≡◌, none, false, subst, sym, arith, [], refl, ℕ, Bool-cases, leb, inl, inr,
}
use smdr.Table.{first, order_by, insert_by, select}

module _ {ℓ} {A : Type ℓ} where
  pub All-at {κ} : (P : A → Type κ) (t : List A) {a : A} → All P t → Memᴰ a t → P a
  All-at P [] h m = elim m [ ]
  All-at P (r ∷ t) h (Memᴰ.head e) = subst P (sym e) h.0
  All-at P (r ∷ t) h (Memᴰ.tail m) = All-at P t h.1 m

  pub first-none_at :
      (p : A → Bool) (t : List A) {a : A} → first p t ≡ none → Memᴰ a t → p a ≡ false
  unfolding first
  first-none_at p [] h m = elim m [ ]
  first-none_at p (r ∷ t) h (Memᴰ.head e) = rw e (ground arith)
  first-none_at p (r ∷ t) h (Memᴰ.tail m) = first-none_at p t (ground arith) m

module _ {ℓ κ} {A : Type ℓ} (P : A → Type κ) where
  pub All-of_mem : (t : List A) → ((a : A) → Memᴰ a t → P a) → All P t
  All-of_mem [] h = tt
  All-of_mem (r ∷ t) h = (h r (Memᴰ.head refl), All-of_mem t (λ a m. h a (Memᴰ.tail m)))

  pub All-insert_by : (k : A → ℕ) (a : A) (t : List A) → P a → All P t → All P (insert_by k a t)
  unfolding insert_by
  All-insert_by k a [] h ht = (h, tt)
  All-insert_by k a (r ∷ t) h ht = elim (Bool-cases (leb (k a) (k r))) [
    | inl e ↦ rw e (h, ht)
    | inr e ↦ rw e (ht.0, All-insert_by k a t h ht.1)
  ]

  -- ORDER BY keeps the rows.
  pub All-order_by : (k : A → ℕ) (t : List A) → All P t → All P (order_by k t)
  unfolding order_by
  All-order_by k [] h = tt
  All-order_by k (r ∷ t) h = All-insert_by k r (order_by k t) h.0 (All-order_by k t h.1)

module _ {ℓ} {A : Type ℓ} where
  -- Two clauses that agree on the rows of a table select the same.
  pub select_agree :
      (p q : A → Bool) (t : List A) → ((a : A) → Memᴰ a t → p a ≡ q a) → select p t ≡ select q t
  unfolding select
  select_agree p q [] h = refl
  select_agree p q (r ∷ t) h =
      ground (arith, h r (Memᴰ.head refl), select_agree p q t (λ a m. h a (Memᴰ.tail m)))
