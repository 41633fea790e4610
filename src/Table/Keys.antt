-- ===== src/Table/Keys.antt =====
-- Tables with a key column: PRIMARY KEY and UNIQUE as a predicate that the statements keep.
use mathlib.Core.List.{Memᴰ}
use smdr.Prelude.{
  ◌≡◌, refl, Bool, inl, inr, Option, none, some, List, [], ◌∷◌, ◌++◌, String, arith, same, eq_iff,
  eq_refl, Bool-cases, if◌then◌else◌, ◌&&◌, true, false,
}
use smdr.Table.{first, update, delete, count}
use smdr.Table.Rows.{first-append, first_sound}

module _ {ℓ} {A : Type ℓ} (key : A → String) where
  -- SELECT * FROM t WHERE key = k
  abbrev pub by_key : String → List A → Option A
  by_key k t = first (λ r. same (key r) k) t

  -- No two rows have one key.
  abbrev pub IsKeyed : List A → Type ℓ
  IsKeyed [] = Unit
  IsKeyed (r ∷ t) = (by_key (key r) t ≡ none) × IsKeyed t

module _ {ℓ} {A : Type ℓ} (key : A → String) where
  module _ (p : A → Bool) (f : A → A) (keeps : (a : A) → key (f a) ≡ key a) where
    -- An UPDATE of other columns, seen through the key.
    pub by_key-update :
        (k : String) (t : List A)
        → by_key key k (update p f t)
          ≡ (elim (by_key key k t) [ none ↦ none | some a ↦ some (if p a then f a else a) ])
    unfolding first update
    by_key-update k [] = refl
    by_key-update k (r ∷ t) = ground (arith, keeps r, by_key-update k t)

    pub IsKeyed-update : (t : List A) → IsKeyed key t → IsKeyed key (update p f t)
    unfolding update
    IsKeyed-update [] h = tt
    IsKeyed-update (r ∷ t) h = (
      ground (arith, keeps r, by_key-update (key (if p r then f r else r)) t),
      IsKeyed-update t h.1,
    )

  -- A DELETE, seen through the key.
  pub by_key-delete :
      (p : A → Bool) (k : String) (t : List A)
      → IsKeyed key t
      → by_key key k (delete p t)
        ≡ (elim (by_key key k t) [ none ↦ none | some a ↦ if p a then none else some a ])
  unfolding first delete
  by_key-delete p k [] h = refl
  by_key-delete p k (r ∷ t) h = ground (arith, by_key-delete p k t h.1, eq_iff (key r) k)

  pub IsKeyed-delete : (p : A → Bool) (t : List A) → IsKeyed key t → IsKeyed key (delete p t)
  unfolding delete
  IsKeyed-delete p [] h = tt
  IsKeyed-delete p (r ∷ t) h = elim (Bool-cases (p r)) [
    | inl e ↦ rw e (IsKeyed-delete p t h.1)
    | inr e ↦ rw e (rw (by_key-delete p (key r) t h.1) (rw h.0), IsKeyed-delete p t h.1)
  ]

  -- An INSERT of a row whose key is new.
  pub IsKeyed-append :
      (r : A) (t : List A) → by_key key (key r) t ≡ none → IsKeyed key t → IsKeyed key (t ++ r ∷ [])
  unfolding first
  IsKeyed-append r [] fresh h = (refl, tt)
  IsKeyed-append r (s ∷ t) fresh h = (
    ground (
      arith,
      first-append (λ x. same (key x) (key s)) t (r ∷ []),
      eq_iff (key r) (key s),
      eq_refl (key r),
    ),
    IsKeyed-append r t (ground (arith)) h.1,
  )

  -- A row of the table is the row that its key finds.
  pub by_key-mem : (t : List A) {a : A} → IsKeyed key t → Memᴰ a t → by_key key (key a) t ≡ some a
  unfolding first
  by_key-mem [] h m = elim m [ ]
  by_key-mem (r ∷ t) {a} h (Memᴰ.head q) = rw q (rw eq_refl)
  by_key-mem (r ∷ t) {a} h (Memᴰ.tail m) =
      ground (arith, by_key-mem t h.1 m, eq_iff (key r) (key a))

  -- The row that a key finds has that key.
  pub by_key_sound : (k : String) (t : List A) (a : A) → by_key key k t ≡ some a → key a ≡ k
  by_key_sound k t a h = (eq_iff (key a) k).0 (first_sound (λ r. same (key r) k) t a h)

  by_key-count_zero :
      (q : A → Bool) (k : String) (t : List A)
      → by_key key k t ≡ none
      → count (λ r. same (key r) k && q r) t ≡ 0
  unfolding first count
  by_key-count_zero q k [] h = refl
  by_key-count_zero q k (r ∷ t) h = ground (arith, by_key-count_zero q k t)

  -- A WHERE clause on the key meets one row at most.
  pub count-by_key :
      (q : A → Bool) (k : String) (t : List A)
      → IsKeyed key t
      → count (λ r. same (key r) k && q r) t
        ≡ (elim (by_key key k t) [ none ↦ 0 | some a ↦ if q a then 1 else 0 ])
  unfolding first count
  count-by_key q k [] h = refl
  count-by_key q k (r ∷ t) h =
      ground (arith, count-by_key q k t h.1, by_key-count_zero q k t, eq_iff (key r) k)

module _ {ℓ} {A : Type ℓ} where
  -- A DELETE of other rows.
  pub first-delete_other :
      (p q : A → Bool)
      → ((a : A) → p a ≡ true → q a ≡ false)
      → (t : List A) → first p (delete q t) ≡ first p t
  unfolding first delete
  first-delete_other p q other [] = refl
  first-delete_other p q other (r ∷ t) = ground (arith, other r, first-delete_other p q other t)
