-- ===== src/Versions/CloneSteps.antt =====
-- The two steps of `create_clone` of app/versions.py: the INSERT of the version and those of the copies.
use smdr.Versions.Creation.{
  insert_version, create_clone, with_classes, copy_rows, with_templates, clashes, with_bindings,
  new_version,
}
use smdr.Versions.Rows.{Version, Db, ok, Tx, err}
use smdr.Table.{first}
use smdr.Prelude.{
  Option-cases, Bool-cases, ℕ, String, ◌≡◌, inl, some, none, strip, inr, same, subst, sym, ◌∙◌, ap,
  refl,
}

ok-inj : (v w : Version) (d d' : Db) → ok v d ≡ ok w d' → (v ≡ w) × (d ≡ d')
ok-inj v w d d' e = (cc, cc)

-- What `insert_version` does when it succeeds.
pub record IsInserted (v : Version) (db db' : Db) : Type 0 where
  pub no_clash : first (clashes v) db.versions ≡ none
  pub no_library : first (λ l. same l.id v.library_id) db.libraries ≡ none
  pub same_classes : db'.classes ≡ db.classes
  pub same_templates : db'.templates ≡ db.templates
  pub same_bindings : db'.version_files ≡ db.version_files

insert_version-IsInserted :
    (vid library_id : String) (now : ℕ) (product_id label : String) (db : Db) (v : Version)
    (db' : Db)
    → insert_version vid library_id now product_id label db ≡ ok v db'
    → IsInserted v db db'
unfolding insert_version
insert_version-IsInserted vid library_id now product_id label db v db' e =
    elim (Bool-cases (same label "")) [
      | inl n ↦ (let q = rw n at e in cc)
      | inr n ↦ elim (Option-cases (first (λ l. same l.id library_id) db.libraries)) [
        | inr (l, y) ↦ (let q = rw (n, y) at e in cc)
        | inl y ↦ elim (Option-cases (first (clashes new) db.versions)) [
          | inr (w, z) ↦ (let q = rw (n, y, z) at e in cc)
          | inl z ↦
              let (v-eq, db-eq) = ok-inj new v _ db' (rw (n, y, z) at e) in
              record {
                no_clash = subst (λ w. first (clashes w) db.versions ≡ none) v-eq z;
                no_library =
                    subst (λ (w : Version). first (λ l. same l.id w.library_id) db.libraries ≡ none)
                      v-eq y;
                same_classes = ap (λ (d : Db). d.classes) (sym db-eq);
                same_templates = ap (λ (d : Db). d.templates) (sym db-eq);
                same_bindings = ap (λ (d : Db). d.version_files) (sym db-eq);
              }
        ]
      ]
    ]
  where
    new : Version
    new = new_version vid library_id product_id label now

pub record IsCopied (source : Version) (ids : ℕ → String) (later : ℕ) (v : Version) (db db' : Db)
    : Type 0 where
  pub new_classes : with_classes source v db ≡ some db'.classes
  pub new_templates : with_templates source ids v db ≡ some db'.templates
  pub new_bindings : with_bindings source later v db ≡ some db'.version_files

copy_rows-IsCopied :
    (source : Version) (ids : ℕ → String) (later : ℕ) (v w : Version) (db db' : Db)
    → copy_rows source ids later v db ≡ ok w db'
    → (w ≡ v) × IsCopied source ids later v db db'
unfolding copy_rows
copy_rows-IsCopied source ids later v w db db' e = elim (Option-cases (with_classes source v db)) [
  | inl n ↦ (let q = rw (n, copy_rows) at e in cc)
  | inr (classes, x) ↦ elim (Option-cases (with_templates source ids v db)) [
    | inl n ↦ (let q = rw (x, n, copy_rows) at e in cc)
    | inr (templates, y) ↦ elim (Option-cases (with_bindings source later v db)) [
      | inl n ↦ (let q = rw (x, y, n, copy_rows) at e in cc)
      | inr (bindings, z) ↦
          let (v-eq, db-eq) = ok-inj v w _ db' (rw (x, y, z, copy_rows) at e) in
          (
            sym v-eq,
            record {
              new_classes = x ∙ ap (λ (d : Db). some d.classes) db-eq;
              new_templates = y ∙ ap (λ (d : Db). some d.templates) db-eq;
              new_bindings = z ∙ ap (λ (d : Db). some d.version_files) db-eq;
            },
          )
    ]
  ]
]

pub create_clone-steps :
    (vid library_id : String) (ids : ℕ → String) (now later : ℕ) (product_id label : String)
    (source : Version) (db : Db) (v : Version) (db' : Db)
    → create_clone vid library_id ids now later product_id label source db ≡ ok v db'
    → (mid : Db) × IsInserted v db mid × IsCopied source ids later v mid db'
unfolding create_clone
create_clone-steps vid library_id ids now later product_id label source db v db' e =
    steps (insert_version vid library_id now product_id (strip label) db) refl e
  where
    steps :
        (x : Tx Version)
        → insert_version vid library_id now product_id (strip label) db ≡ x
        → (elim x [ err q ↦ err q | ok w mid ↦ copy_rows source ids later w mid ]) ≡ ok v db'
        → (mid : Db) × IsInserted v db mid × IsCopied source ids later v mid db'
    steps (err q) at e = cc
    steps (ok w mid) at e =
        let (v-eq, copied) = copy_rows-IsCopied source ids later w v mid db' e in
        (
          mid,
          subst (λ u. IsInserted u db mid) (sym v-eq)
              (insert_version-IsInserted vid library_id now product_id (strip label) db w mid at),
          subst (λ u. IsCopied source ids later u mid db') (sym v-eq) copied,
        )
