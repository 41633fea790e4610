-- ===== src/Table.antt =====
-- An SQL table as the list of its rows, oldest first, with the statements that the stores run:
-- SELECT ... WHERE, SELECT ... LIMIT 1, UPDATE ... WHERE, DELETE ... WHERE and ORDER BY.
pub mod Rows
pub mod Keys
pub mod Order
pub mod Unique
pub mod Members
pub mod Inserts
pub mod Deletes
pub mod Counts
use smdr.Prelude.{ℕ, ◌+◌, Bool, Option, none, some, List, [], ◌∷◌, ◌++◌, leb, if◌then◌else◌}

module _ {ℓ} {A : Type ℓ} where
  -- SELECT * FROM t WHERE p
  unfoldable pub select : (A → Bool) → List A → List A
  select p [] = []
  select p (r ∷ t) = let rest = select p t in if p r then r ∷ rest else rest

  -- SELECT * FROM t WHERE p LIMIT 1
  unfoldable pub first : (A → Bool) → List A → Option A
  first p [] = none
  first p (r ∷ t) = if p r then some r else first p t

  -- UPDATE t SET f WHERE p
  unfoldable pub update : (A → Bool) → (A → A) → List A → List A
  update p f [] = []
  update p f (r ∷ t) = (if p r then f r else r) ∷ update p f t

  -- DELETE FROM t WHERE p
  unfoldable pub delete : (A → Bool) → List A → List A
  delete p [] = []
  delete p (r ∷ t) = let rest = delete p t in if p r then rest else r ∷ rest

  -- INSERT of several rows, one after the other, under a UNIQUE constraint: `none` is its violation.
  unfoldable pub insert_rows : (A → A → Bool) → List A → List A → Option (List A)
  insert_rows agree [] t = some t
  insert_rows agree (r ∷ rs) t =
      let rest = insert_rows agree rs (t ++ r ∷ []) in
      elim (first (agree r) t) [ none ↦ rest | some _ ↦ none ]

  -- The rows that a WHERE clause meets: the rowcount of an UPDATE or a DELETE.
  unfoldable pub count : (A → Bool) → List A → ℕ
  count p [] = 0
  count p (r ∷ t) = (if p r then 1 else 0) + count p t

  -- ORDER BY k LIMIT 1: the first row among those of the least key.
  unfoldable pub least : (A → ℕ) → List A → Option A
  least k [] = none
  least k (r ∷ t) = elim (least k t) [
    | none ↦ some r
    | some s ↦ if leb (k r) (k s) then some r else some s
  ]

  -- ORDER BY k DESC LIMIT 1
  unfoldable pub greatest : (A → ℕ) → List A → Option A
  greatest k [] = none
  greatest k (r ∷ t) = elim (greatest k t) [
    | none ↦ some r
    | some s ↦ if leb (k s) (k r) then some r else some s
  ]

  -- ORDER BY k: a stable insertion.
  unfoldable pub insert_by : (A → ℕ) → A → List A → List A
  insert_by k a [] = a ∷ []
  insert_by k a (r ∷ t) = if leb (k a) (k r) then a ∷ r ∷ t else r ∷ insert_by k a t

  unfoldable pub order_by : (A → ℕ) → List A → List A
  unfolding insert_by
  order_by k [] = []
  order_by k (r ∷ t) = insert_by k r (order_by k t)
