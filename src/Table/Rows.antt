-- ===== src/Table/Rows.antt =====
-- Statements over a table and predicates of its rows: what each statement keeps, row by row.
use mathlib.Core.Option.{map as map_option}
use mathlib.Core.List.{Memᴰ, map}
use smdr.Prelude.{
  suc, ◌+◌, ◌<◌, ◌≡◌, refl, ap, subst, Bool, true, false, inl, inr, none, some, List, [], ◌∷◌, ◌++◌,
  arith, Bool-cases, if◌then◌else◌, All, length, not,
}
use smdr.Table.{select, first, update, delete, count}

module _ {ℓ κ} {A : Type ℓ} (P : A → Type κ) where
  pub All-update :
      (p : A → Bool) (f : A → A)
      → ((a : A) → p a ≡ true → P a → P (f a))
      → (t : List A) → All P t
      → All P (update p f t)
  unfolding update
  All-update p f step [] h = tt
  All-update p f step (r ∷ t) h = elim (Bool-cases (p r)) [
    | inl e ↦ rw e (step r e h.0, All-update p f step t h.1)
    | inr e ↦ rw e (h.0, All-update p f step t h.1)
  ]

  pub All-delete : (p : A → Bool) (t : List A) → All P t → All P (delete p t)
  unfolding delete
  All-delete p [] h = tt
  All-delete p (r ∷ t) h = elim (Bool-cases (p r)) [
    | inl e ↦ rw e (All-delete p t h.1)
    | inr e ↦ rw e (h.0, All-delete p t h.1)
  ]

  pub All-select : (p : A → Bool) (t : List A) → All P t → All P (select p t)
  unfolding select
  All-select p [] h = tt
  All-select p (r ∷ t) h = elim (Bool-cases (p r)) [
    | inl e ↦ rw e (h.0, All-select p t h.1)
    | inr e ↦ rw e (All-select p t h.1)
  ]

  pub All-first : (p : A → Bool) (t : List A) {a : A} → All P t → first p t ≡ some a → P a
  unfolding first
  All-first p [] h e = cc
  All-first p (r ∷ t) h e = elim (Bool-cases (p r)) [
    | inl y ↦ subst P (inj (rw y at e)) h.0
    | inr n ↦ All-first p t h.1 (rw n at e)
  ]
    where
      inj : {b c : A} → some b ≡ some c → b ≡ c
      inj q = cc

  pub All-if : (b : Bool) (x y : A) → (b ≡ true → P x) → (b ≡ false → P y) → P (if b then x else y)
  All-if true x y hx hy = hx refl
  All-if false x y hx hy = hy refl

  -- What holds of every selected row holds of the rows that meet the WHERE clause.
  pub All-of_select :
      (p : A → Bool) (t : List A) → All P (select p t) → All (λ a. p a ≡ true → P a) t
  unfolding select
  All-of_select p [] h = tt
  All-of_select p (r ∷ t) h = elim (Bool-cases (p r)) [
    | inl e ↦ let h' = rw e at h in (λ _. h'.0, All-of_select p t h'.1)
    | inr e ↦ (λ e'. cc, All-of_select p t (rw e at h))
  ]

module _ {ℓ} {A : Type ℓ} where
  pub Memᴰ-select :
      (p : A → Bool) (t : List A) {a : A} → Memᴰ a (select p t) → Memᴰ a t × (p a ≡ true)
  unfolding select
  Memᴰ-select p [] m = elim m [ ]
  Memᴰ-select p (r ∷ t) {a} m = elim (Bool-cases (p r)) [
    | inl e ↦ split e (λ m'. Memᴰ-select p t m') (rw e at m)
    | inr e ↦ let (m', s) = Memᴰ-select p t (rw e at m) in (Memᴰ.tail m', s)
  ]
    where
      split :
          p r ≡ true
          → (Memᴰ a (select p t) → Memᴰ a t × (p a ≡ true))
          → Memᴰ a (r ∷ select p t)
          → Memᴰ a (r ∷ t) × (p a ≡ true)
      split e ih (Memᴰ.head q) = (Memᴰ.head q, rw q e)
      split e ih (Memᴰ.tail m') = let (m'', s) = ih m' in (Memᴰ.tail m'', s)

  pub first-select_nil : (p : A → Bool) (t : List A) → select p t ≡ [] → first p t ≡ none
  unfolding select first
  first-select_nil p [] h = refl
  first-select_nil p (r ∷ t) h = ground (arith, first-select_nil p t)

  pub first_sound : (p : A → Bool) (t : List A) (a : A) → first p t ≡ some a → p a ≡ true
  unfolding first
  first_sound p [] a h = cc
  first_sound p (r ∷ t) a h = ground (arith, first_sound p t a)

  -- An UPDATE that keeps what `p` tests changes the row found and no other.
  pub first-update :
      (p q : A → Bool) (f : A → A)
      → ((a : A) → p (f a) ≡ p a)
      → (t : List A) → first p (update q f t) ≡ map_option (λ a. if q a then f a else a) (first p t)
  unfolding first update
  first-update p q f same [] = refl
  first-update p q f same (r ∷ t) = ground (arith, same r, first-update p q f same t)

  pub first-append :
      (p : A → Bool) (t u : List A)
      → first p (t ++ u) ≡ (elim (first p t) [ none ↦ first p u | some a ↦ some a ])
  unfolding first
  first-append p [] u = refl
  first-append p (r ∷ t) u = ground (arith, first-append p t u)

  pub count-update_zero : (p : A → Bool) (f : A → A) (t : List A) → count p t ≡ 0 → update p f t ≡ t
  unfolding count update
  count-update_zero p f [] h = refl
  count-update_zero p f (r ∷ t) h = ground (arith, count-update_zero p f t)

  pub count-zero_iff : (p : A → Bool) (t : List A) → first p t ≡ none → count p t ≡ 0
  unfolding count first
  count-zero_iff p [] h = refl
  count-zero_iff p (r ∷ t) h = ground (arith, count-zero_iff p t)

  pub count-pos : (p : A → Bool) (t : List A) (a : A) → first p t ≡ some a → 0 < count p t
  unfolding count first
  count-pos p [] a h = cc
  count-pos p (r ∷ t) a h = ground (arith, count-pos p t a)

  pub length-update : (p : A → Bool) (f : A → A) (t : List A) → length (update p f t) ≡ length t
  unfolding update
  length-update p f [] = refl
  length-update p f (r ∷ t) = ap suc (length-update p f t)

  pub length-delete : (p : A → Bool) (t : List A) → length (delete p t) + count p t ≡ length t
  unfolding delete count
  length-delete p [] = refl
  length-delete p (r ∷ t) = ground (arith, length-delete p t)

module _ {ℓ} {A : Type ℓ} where
  -- A DELETE of rows that a WHERE clause does not meet leaves its SELECT as it was.
  pub select-delete :
      (p q : A → Bool)
      → ((a : A) → p a ≡ true → q a ≡ false)
      → (t : List A) → select p (delete q t) ≡ select p t
  unfolding select delete
  select-delete p q apart [] = refl
  select-delete p q apart (r ∷ t) = ground (arith, apart r, select-delete p q apart t)

  -- So for an UPDATE of rows that the clause meets neither before nor after.
  pub select-update :
      (p q : A → Bool) (f : A → A)
      → ((a : A) → q a ≡ true → (p a ≡ false) × (p (f a) ≡ false))
      → (t : List A) → select p (update q f t) ≡ select p t
  unfolding select update
  select-update p q f apart [] = refl
  select-update p q f apart (r ∷ t) = ground (arith, apart r, select-update p q f apart t)

  -- After a DELETE no row meets its clause.
  pub select-delete_self : (p : A → Bool) (t : List A) → select p (delete p t) ≡ []
  unfolding select delete
  select-delete_self p [] = refl
  select-delete_self p (r ∷ t) = ground (arith, select-delete_self p t)

  -- After an UPDATE that unmakes its clause, no row meets it.
  pub select-update_self :
      (p : A → Bool) (f : A → A)
      → ((a : A) → p a ≡ true → p (f a) ≡ false)
      → (t : List A) → select p (update p f t) ≡ []
  unfolding select update
  select-update_self p f undone [] = refl
  select-update_self p f undone (r ∷ t) = ground (arith, undone r, select-update_self p f undone t)

  -- A SELECT after an UPDATE whose rows it passes over meets what was left of its clause.
  pub select-update_rest :
      (p q s : A → Bool) (f : A → A)
      → ((a : A) → q a ≡ true → (p (f a) ≡ false) × (s a ≡ false))
      → ((a : A) → q a ≡ false → p a ≡ s a)
      → (t : List A) → select p (update q f t) ≡ select s t
  unfolding select update
  select-update_rest p q s f out agree [] = refl
  select-update_rest p q s f out agree (r ∷ t) =
      ground (arith, out r, agree r, select-update_rest p q s f out agree t)

  pub first-delete-none :
      (p q : A → Bool) (t : List A) → first p t ≡ none → first p (delete q t) ≡ none
  unfolding first delete
  first-delete-none p q [] h = refl
  first-delete-none p q (r ∷ t) h = ground (arith, first-delete-none p q t)

  -- No row meets a narrower clause either.
  pub first-none_of :
      (p q : A → Bool)
      → ((a : A) → q a ≡ true → p a ≡ true)
      → (t : List A) → first p t ≡ none
      → first q t ≡ none
  unfolding first
  first-none_of p q wider [] h = refl
  first-none_of p q wider (r ∷ t) h = ground (arith, wider r, first-none_of p q wider t)

  pub delete-none : (p : A → Bool) (t : List A) → first p t ≡ none → delete p t ≡ t
  unfolding first delete
  delete-none p [] h = refl
  delete-none p (r ∷ t) h = ground (arith, delete-none p t)

  -- A WHERE clause in other words.
  pub update-map :
      (p q : A → Bool) (f : A → A)
      → ((a : A) → p a ≡ q a)
      → (t : List A) → update p f t ≡ map (λ a. if q a then f a else a) t
  unfolding update
  update-map p q f same [] = refl
  update-map p q f same (r ∷ t) = rw (same r, update-map p q f same t) refl

  pub count-length :
      (p q : A → Bool) → ((a : A) → p a ≡ q a) → (t : List A) → count p t ≡ length (select q t)
  unfolding count select
  count-length p q same [] = refl
  count-length p q same (r ∷ t) = ground (arith, same r, count-length p q same t)

  pub delete-select :
      (p q : A → Bool)
      → ((a : A) → p a ≡ q a)
      → (t : List A) → delete p t ≡ select (λ a. not (q a)) t
  unfolding delete select
  delete-select p q same [] = refl
  delete-select p q same (r ∷ t) = ground (arith, same r, delete-select p q same t)

  pub select_same :
      (p q : A → Bool) → ((a : A) → p a ≡ q a) → (t : List A) → select p t ≡ select q t
  unfolding select
  select_same p q same [] = refl
  select_same p q same (r ∷ t) = rw (same r, select_same p q same t) refl
