-- ===== src/Versions/Labels.antt =====
-- The UNIQUE columns of `versions`: what the methods do to its rows, and that no two come to share a
-- product and a label.
use smdr.Table.Rows.{first-none_of}
use smdr.Prelude.{
  String, ◌≡◌, List, none, ℕ, ◌++◌, ◌∷◌, [], same_swap, Bool-cases, strip, arith, ◌∙◌, refl, same,
  eq_iff, inl, inr, is_some, Option-cases,
}
use smdr.Table.{first}
use smdr.Table.Unique.{IsUnique, IsUnique-append, IsUnique-IsKeyed}
use smdr.Table.Keys.{IsKeyed}
use smdr.Versions.Rows.{Version, Db, Tx, after, ok, err, Product}
use smdr.Versions.Creation.{
  clashes, insert_version, create_product, create_first, copy_rows, create_clone, new_version,
  new_product, with_classes, with_templates, with_bindings,
}

-- No two versions share an id, a library, or a product and a label.
abbrev pub IsDistinct : List Version → Type 0
IsDistinct t = IsUnique clashes t

pub IsDistinct-IsKeyed : (t : List Version) → IsDistinct t → IsKeyed (λ v. v.id) t
IsDistinct-IsKeyed t h =
    IsUnique-IsKeyed clashes (λ v. v.id)
      (λ a b q. ground (arith, eq_iff a.id b.id, eq_iff b.id a.id)) t h

clashes_swap : (v w : Version) → clashes v w ≡ clashes w v
clashes_swap v w =
    rw
      (
        same_swap v.id w.id,
        same_swap v.library_id w.library_id,
        same_swap v.product_id w.product_id,
        same_swap v.label w.label,
      )
      refl

-- What an insertion makes of the versions: the same, or one more that clashes with none.
pub data Grows (t : List Version) : List Version → Type 0 where
  same_rows : Grows t t
  new_row : (v : Version) → first (clashes v) t ≡ none → Grows t (t ++ v ∷ [])

pub Grows-IsDistinct : {t u : List Version} → Grows t u → IsDistinct t → IsDistinct u
Grows-IsDistinct same_rows h = h
Grows-IsDistinct {t} (new_row v fresh) h =
    IsUnique-append clashes clashes_swap v t
      (first-none_of (clashes v) (λ w. clashes w v) (λ w q. clashes_swap v w ∙ q) t fresh) h

-- `f` of the versions that a transaction ends with grows `t`, if it ends with a result.
abbrev pub GrowsOnOk {ℓ} : {A : Type ℓ} → List Version → Tx A → Type 0
GrowsOnOk t (ok a db) = Grows t db.versions
GrowsOnOk t (err e) = Unit

pub after-Grows {ℓ} :
    {A : Type ℓ} (db : Db) (x : Tx A)
    → GrowsOnOk db.versions x
    → Grows db.versions (after db x).versions
unfolding after
after-Grows db (ok a db') h = h
after-Grows db (err e) h = same_rows

insert_version-Grows :
    (vid library_id : String) (now : ℕ) (product_id label : String) (db : Db)
    → GrowsOnOk db.versions (insert_version vid library_id now product_id label db)
unfolding insert_version
insert_version-Grows vid library_id now product_id label db = elim (Bool-cases (same label "")) [
  | inl e ↦ rw e tt
  | inr e ↦ rw e (elim (Bool-cases (is_some (first (λ l. same l.id library_id) db.libraries))) [
    | inl y ↦ rw y tt
    | inr y ↦
        rw y
          (elim (Option-cases
            (first (clashes (new_version vid library_id product_id label now)) db.versions)) [
              | inl fresh ↦
                  rw fresh (new_row (new_version vid library_id product_id label now) fresh)
              | inr (w, q) ↦ rw q tt
            ])
  ])
]

copy_rows-versions :
    (source : Version) (ids : ℕ → String) (later : ℕ) (v : Version) (db : Db) {t : List Version}
    → Grows t db.versions
    → GrowsOnOk t (copy_rows source ids later v db)
unfolding copy_rows
copy_rows-versions source ids later v db g = elim (Option-cases (with_classes source v db)) [
  | inl e ↦ rw (e, GrowsOnOk) tt
  | inr (classes, e) ↦
      rw (e, GrowsOnOk)
        (elim (Option-cases (with_templates source ids v db)) [
          | inl e' ↦ rw (e', GrowsOnOk) tt
          | inr (templates, e') ↦
              rw (e', GrowsOnOk)
                (elim (Option-cases (with_bindings source later v db)) [
                  | inl q ↦ rw (q, GrowsOnOk) tt
                  | inr (bindings, q) ↦ rw (q, GrowsOnOk) g
                ])
        ])
]

pub create_clone-Grows :
    (vid library_id : String) (ids : ℕ → String) (now later : ℕ) (product_id label : String)
    (source : Version) (db : Db)
    → GrowsOnOk db.versions (create_clone vid library_id ids now later product_id label source db)
unfolding create_clone
create_clone-Grows vid library_id ids now later product_id label source db =
    next (insert_version vid library_id now product_id (strip label) db)
      (insert_version-Grows vid library_id now product_id (strip label) db)
  where
    next :
        (x : Tx Version)
        → GrowsOnOk db.versions x
        → GrowsOnOk db.versions
            (elim x [ err e ↦ err e | ok v db' ↦ copy_rows source ids later v db' ])
    next (ok v db') g = copy_rows-versions source ids later v db' g
    next (err e) g = tt

pub create_first-Grows :
    (vid library_id : String) (now : ℕ) (product_id label : String) (db : Db)
    → GrowsOnOk db.versions (create_first vid library_id now product_id label db)
unfolding create_first
create_first-Grows vid library_id now product_id label db =
    insert_version-Grows vid library_id now product_id (strip label) db

pub create_product-Grows :
    (product_id vid library_id : String) (now : ℕ) (name label customer_id : String) (db : Db)
    → GrowsOnOk db.versions (create_product product_id vid library_id now name label customer_id db)
unfolding create_product
create_product-Grows product_id vid library_id now name label customer_id db =
    elim (Bool-cases (same (strip label) "")) [
      | inl e ↦ rw e tt
      | inr e ↦ rw e (elim (Bool-cases (is_some (first (λ q. same q.id product_id) db.products))) [
        | inl y ↦ rw y tt
        | inr y ↦
            let p = new_product product_id now name customer_id in
            let with_product = record db { products = db.products ++ p ∷ [] } in
            rw y (
              next p (insert_version vid library_id now product_id (strip label) with_product)
                (insert_version-Grows vid library_id now product_id (strip label) with_product))
      ])
    ]
  where
    next :
        (p : Product) (x : Tx Version)
        → GrowsOnOk db.versions x
        → GrowsOnOk {A = Product × Version} db.versions
            (elim x [ err e ↦ err e | ok v db' ↦ ok (p, v) db' ])
    next p (ok v db') g = g
    next p (err e) g = tt
