-- ===== src/Table/Counts.antt =====
-- How an UPDATE moves the count of a clause.
use smdr.Prelude.{◌+◌, ◌≤◌, Bool, true, false, List, [], ◌∷◌, ◌≡◌, refl, arith}
use smdr.Table.{update, count}

module _ {ℓ} {A : Type ℓ} where
  -- An UPDATE that makes no row meet the clause anew.
  pub count-update-le :
      (p q : A → Bool) (f : A → A)
      → ((a : A) → q a ≡ true → p (f a) ≡ true → p a ≡ true)
      → (t : List A) → count p (update q f t) ≤ count p t
  unfolding count update
  count-update-le p q f old [] = omega arith
  count-update-le p q f old (r ∷ t) = ground (arith, old r, count-update-le p q f old t)

  -- An UPDATE of rows that meet the clause to rows that do not.
  pub count-update_out :
      (p q : A → Bool) (f : A → A)
      → ((a : A) → q a ≡ true → (p a ≡ true) × (p (f a) ≡ false))
      → (t : List A) → count p (update q f t) + count q t ≡ count p t
  unfolding count update
  count-update_out p q f out [] = refl
  count-update_out p q f out (r ∷ t) = ground (arith, out r, count-update_out p q f out t)
