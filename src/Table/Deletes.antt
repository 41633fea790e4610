-- ===== src/Table/Deletes.antt =====
-- What a SELECT of one row finds after a DELETE, in a table with a UNIQUE constraint.
use smdr.Prelude.{
  Bool, List, [], ◌∷◌, none, some, ◌≡◌, refl, arith, true, if◌then◌else◌, Bool-cases, inl, inr,
}
use smdr.Table.{first, delete}
use smdr.Table.Rows.{first-none_of}
use smdr.Table.Unique.{IsUnique}

module _ {ℓ} {A : Type ℓ} (agree : A → A → Bool) where
  -- The one row that meets a clause within the constraint is gone, if the DELETE meets it.
  pub first-delete :
      (p q : A → Bool)
      → ((a b : A) → p a ≡ true → p b ≡ true → agree b a ≡ true)
      → (t : List A) → IsUnique agree t
      → first p (delete q t)
        ≡ (elim (first p t) [ none ↦ none | some a ↦ if q a then none else some a ])
  unfolding first delete
  first-delete p q one [] h = refl
  first-delete p q one (r ∷ t) h = elim (Bool-cases (p r)) [
    | inl e ↦ ground (
      arith,
      first-delete p q one t h.1,
      first-none_of (λ s. agree s r) p (λ b e'. one r b e e') t h.0,
    )
    | inr e ↦ ground (arith, first-delete p q one t h.1)
  ]
