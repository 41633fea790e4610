-- ===== src/Table/Unique.antt =====
-- UNIQUE over several columns: no two rows agree, by a test that does not care for the order.
use smdr.Table.Keys.{IsKeyed}
use smdr.Table.Rows.{first-delete-none, first-append, first-update, first-none_of}
use smdr.Prelude.{
  if◌then◌else◌, refl, Bool, List, ◌≡◌, ◌∷◌, Bool-cases, none, inl, ◌++◌, [], inr, arith, String,
  same, true,
}
use smdr.Table.{delete, first, update}

module _ {ℓ} {A : Type ℓ} (agree : A → A → Bool) where
  abbrev pub IsUnique : List A → Type ℓ
  IsUnique [] = Unit
  IsUnique (r ∷ t) = (first (λ s. agree s r) t ≡ none) × IsUnique t

  pub IsUnique-delete : (p : A → Bool) (t : List A) → IsUnique t → IsUnique (delete p t)
  unfolding delete
  IsUnique-delete p [] h = tt
  IsUnique-delete p (r ∷ t) h = elim (Bool-cases (p r)) [
    | inl e ↦ rw e (IsUnique-delete p t h.1)
    | inr e ↦ rw e (first-delete-none (λ s. agree s r) p t h.0, IsUnique-delete p t h.1)
  ]

  pub IsUnique-append :
      ((a b : A) → agree a b ≡ agree b a)
      → (r : A) (t : List A) → first (λ s. agree s r) t ≡ none
      → IsUnique t
      → IsUnique (t ++ r ∷ [])
  unfolding first
  IsUnique-append swap r [] fresh h = (refl, tt)
  IsUnique-append swap r (s ∷ t) fresh h = (
    ground (arith, first-append (λ x. agree x s) t (r ∷ []), swap s r),
    IsUnique-append swap r t (ground arith) h.1,
  )

  -- An UPDATE of columns that the constraint does not read.
  pub IsUnique-update :
      (p : A → Bool) (f : A → A)
      → ((a b : A) → agree (f a) b ≡ agree a b)
      → ((a b : A) → agree a (f b) ≡ agree a b)
      → (t : List A) → IsUnique t
      → IsUnique (update p f t)
  unfolding update
  IsUnique-update p f left right [] h = tt
  IsUnique-update p f left right (r ∷ t) h = (
    rw
        (first-update (λ s. agree s (if p r then f r else r)) p f
          (λ a. left a (if p r then f r else r)) t)
        (elim (Bool-cases (p r)) [
          | inl e ↦ rw e (
              ground (
                arith,
                first-none_of (λ s. agree s r) (λ s. agree s (f r))
                    (λ a q. ground (arith, right a r)) t,
              ))
          | inr e ↦ rw e (rw h.0)
        ]),
    IsUnique-update p f left right t h.1,
  )

  -- A column that the constraint does not let two rows share is a key.
  pub IsUnique-IsKeyed :
      (key : A → String)
      → ((a b : A) → same (key a) (key b) ≡ true → agree a b ≡ true)
      → (t : List A) → IsUnique t
      → IsKeyed key t
  IsUnique-IsKeyed key shared [] h = tt
  IsUnique-IsKeyed key shared (r ∷ t) h = (
    first-none_of (λ s. agree s r) (λ s. same (key s) (key r)) (λ a. shared a r) t h.0,
    IsUnique-IsKeyed key shared t h.1,
  )
