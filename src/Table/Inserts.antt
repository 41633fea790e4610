-- ===== src/Table/Inserts.antt =====
-- What a SELECT finds after an INSERT of several rows.
use mathlib.Core.List.{Memᴰ, List, ◌∷◌, [], map}
use smdr.Prelude.{
  Bool, All, ◌≡◌, ◌++◌, false, true, ◌∷◌, some, refl, Bool-cases, arith, ◌∙◌, inl, inr,
}
use smdr.Table.{insert_rows, first, select}

module _ {ℓ} {A : Type ℓ} where
  pub append_nil : (t : List A) → t ++ [] ≡ t
  append_nil [] = refl
  append_nil (r ∷ t) = rw (append_nil t) refl

  pub append_cons : (t u : List A) (r : A) → (t ++ r ∷ []) ++ u ≡ t ++ r ∷ u
  append_cons [] u r = refl
  append_cons (s ∷ t) u r = rw (append_cons t u r) refl

  insert_rows-some :
      (agree : A → A → Bool) (rs t u : List A) → insert_rows agree rs t ≡ some u → u ≡ t ++ rs
  unfolding insert_rows
  insert_rows-some agree [] t u e = ground (arith, append_nil t)
  insert_rows-some agree (r ∷ rs) t u e =
      insert_rows-some agree rs (t ++ r ∷ []) u (ground arith) ∙ append_cons t rs r

  select-append : (p : A → Bool) (t u : List A) → select p (t ++ u) ≡ select p t ++ select p u
  unfolding select
  select-append p [] u = refl
  select-append p (r ∷ t) u = ground (arith, select-append p t u)

  pub select_whole : (p : A → Bool) (t : List A) → All (λ r. p r ≡ true) t → select p t ≡ t
  unfolding select
  select_whole p [] h = refl
  select_whole p (r ∷ t) h = ground (arith, select_whole p t h.1, h.0)

  select-none : (p : A → Bool) (t : List A) → All (λ r. p r ≡ false) t → select p t ≡ []
  unfolding select
  select-none p [] h = refl
  select-none p (r ∷ t) h = ground (arith, select-none p t h.1, h.0)

  pub All-map :
      (p : A → Bool) (b : Bool) (f : A → A) (t : List A)
      → ((a : A) → p (f a) ≡ b)
      → All (λ r. p r ≡ b) (map f t)
  All-map p b f [] h = tt
  All-map p b f (r ∷ t) h = (h r, All-map p b f t h)

  pub first_mem : (p : A → Bool) (t : List A) {a : A} → first p t ≡ some a → Memᴰ a t
  unfolding first
  first_mem p [] e = cc
  first_mem p (r ∷ t) e = elim (Bool-cases (p r)) [
    | inl y ↦ Memᴰ.head (ground arith)
    | inr n ↦ Memᴰ.tail (first_mem p t (ground arith))
  ]

  -- What is selected of a table after rows are inserted none of which meets the clause.
  pub select-inserted :
      (p : A → Bool) (agree : A → A → Bool) (rs t u : List A)
      → insert_rows agree rs t ≡ some u
      → All (λ r. p r ≡ false) rs
      → select p u ≡ select p t
  select-inserted p agree rs t u e h =
      rw (insert_rows-some agree rs t u e, select-append p t rs, select-none p rs h)
        (append_nil (select p t))

  -- What is selected of a table in which no row met the clause, after rows are inserted that all do.
  pub select-fresh :
      (p : A → Bool) (agree : A → A → Bool) (rs t u : List A)
      → insert_rows agree rs t ≡ some u
      → All (λ r. p r ≡ true) rs
      → All (λ r. p r ≡ false) t
      → select p u ≡ rs
  select-fresh p agree rs t u e h none_before =
      rw
        (
          insert_rows-some agree rs t u e,
          select-append p t rs,
          select_whole p rs h,
          select-none p t none_before,
        )
        refl
