-- ===== src/Versions/Distinct.antt =====
-- What changes versions in place or deletes them, and that the UNIQUE columns of `versions` stay distinct
-- under every method.
use smdr.Table.{count, update}
use smdr.Table.Unique.{IsUnique-update, IsUnique-delete}
use smdr.Versions.Labels.{
  IsDistinct, Grows-IsDistinct, after-Grows, create_product-Grows, create_first-Grows,
  create_clone-Grows,
}
use smdr.Versions.Rows.{Version, Db, after, version_of}
use smdr.Versions.Creation.{
  delete_versions, clashes, delete_for_product, delete_version, create_product, create_first,
  create_clone,
}
use smdr.Versions.Methods.{
  sign_off, set_customer, set_check_dam, unsign, read_back, delete_product, update_version, get,
  list_by_product,
}
use smdr.Versions.Runs.{
  VersionCall, perform_version, run_versions, add_product, add_first, add_clone, freeze, withdraw,
  flag_dam, assign, drop_versions, drop_product,
}
use smdr.Prelude.{
  String, List, Bool, ℕ, Bool-cases, Option, Option-cases, ◌∷◌, ◌≡◌, ltb, [], same, inl, inr, refl,
}

-- What a change of one version in place makes of the versions.
pub data Edits (k : String) (t : List Version) : List Version → Type 0 where
  untouched : Edits k t t
  edited :
      (f : Version → Version)
      → ((v w : Version) → clashes (f v) w ≡ clashes v w)
      → ((v w : Version) → clashes v (f w) ≡ clashes v w)
      → ((v : Version) → (f v).id ≡ v.id)
      → Edits k t (update (λ v. same v.id k) f t)

read_back-Edits :
    (k : String) (f : Version → Version)
    → ((v w : Version) → clashes (f v) w ≡ clashes v w)
    → ((v w : Version) → clashes v (f w) ≡ clashes v w)
    → ((v : Version) → (f v).id ≡ v.id)
    → (db : Db) → Edits k db.versions (after db (read_back k (update_version k f db))).versions
unfolding read_back after
read_back-Edits k f left right keeps db = elim (Option-cases (get k (update_version k f db))) [
  | inl e ↦ rw (e, after) untouched
  | inr (v, e) ↦ rw (e, after) (edited f left right keeps)
]

-- A sign-off, its withdrawal and a toggle of the flag change that version in place, and the first and
-- the last only one that is not signed off.
pub sign_off-Edits :
    (version_id by : String) (now : ℕ) (name content_type : Option String) (db : Db)
    → Edits version_id db.versions
        (after db (sign_off version_id by now name content_type db)).versions
unfolding sign_off after
sign_off-Edits version_id by now name content_type db =
    elim (Option-cases (version_of version_id db)) [
      | inl e ↦ rw (e, after) untouched
      | inr (v, e) ↦
          rw (e, after)
            (elim (Option-cases v.signed_off_by) [
              | inl open_still ↦
                  rw (open_still, after)
                    (read_back-Edits version_id _ (λ v w. refl) (λ v w. refl) (λ v. refl) db)
              | inr (other, q) ↦ rw (q, after) untouched
            ])
    ]

pub set_check_dam-Edits :
    (version_id : String) (value : Bool) (db : Db)
    → Edits version_id db.versions (after db (set_check_dam version_id value db)).versions
unfolding set_check_dam after
set_check_dam-Edits version_id value db = elim (Option-cases (version_of version_id db)) [
  | inl e ↦ rw (e, after) untouched
  | inr (v, e) ↦
      rw (e, after)
        (elim (Option-cases v.signed_off_by) [
          | inl open_still ↦
              rw (open_still, after)
                (read_back-Edits version_id _ (λ v w. refl) (λ v w. refl) (λ v. refl) db)
          | inr (other, q) ↦ rw (q, after) untouched
        ])
]

pub unsign-Edits :
    (version_id : String) (db : Db)
    → Edits version_id db.versions (after db (unsign version_id db)).versions
unfolding unsign after
unsign-Edits version_id db =
    elim (Bool-cases (ltb 0 (count (λ v. same v.id version_id) db.versions))) [
      | inl e ↦ rw e (read_back-Edits version_id _ (λ v w. refl) (λ v w. refl) (λ v. refl) db)
      | inr e ↦ rw e untouched
    ]

Edits-IsDistinct : {k : String} {t u : List Version} → Edits k t u → IsDistinct t → IsDistinct u
Edits-IsDistinct untouched h = h
Edits-IsDistinct {k} {t} (edited f left right keeps) h =
    IsUnique-update clashes (λ v. same v.id k) f left right t h

delete_versions-IsDistinct :
    (vs : List Version) (db : Db)
    → IsDistinct db.versions
    → IsDistinct (delete_versions vs db).versions
unfolding delete_versions
delete_versions-IsDistinct [] db h = h
delete_versions-IsDistinct (v ∷ vs) db h =
    delete_versions-IsDistinct vs (delete_version v db)
      (IsUnique-delete clashes (λ w. same w.id v.id) db.versions h)

pub perform_version-IsDistinct :
    (c : VersionCall) (db : Db)
    → IsDistinct db.versions
    → IsDistinct (perform_version c db).versions
unfolding perform_version set_customer delete_product delete_for_product
perform_version-IsDistinct (add_product product_id vid library_id now name label customer_id) db h =
    Grows-IsDistinct
      (after-Grows db (create_product product_id vid library_id now name label customer_id db)
        (create_product-Grows product_id vid library_id now name label customer_id db))
      h
perform_version-IsDistinct (add_first vid library_id now product_id label) db h =
    Grows-IsDistinct
      (after-Grows db (create_first vid library_id now product_id label db)
        (create_first-Grows vid library_id now product_id label db))
      h
perform_version-IsDistinct (add_clone vid library_id ids now later product_id label source) db h =
    Grows-IsDistinct
      (after-Grows db (create_clone vid library_id ids now later product_id label source db)
        (create_clone-Grows vid library_id ids now later product_id label source db))
      h
perform_version-IsDistinct (freeze version_id by now name content_type) db h =
    Edits-IsDistinct (sign_off-Edits version_id by now name content_type db) h
perform_version-IsDistinct (withdraw version_id) db h =
    Edits-IsDistinct (unsign-Edits version_id db) h
perform_version-IsDistinct (flag_dam version_id value) db h =
    Edits-IsDistinct (set_check_dam-Edits version_id value db) h
perform_version-IsDistinct (assign product_id customer_id) db h = h
perform_version-IsDistinct (drop_versions product_id) db h =
    delete_versions-IsDistinct (list_by_product product_id db) db h
perform_version-IsDistinct (drop_product product_id) db h = h

-- From tables whose versions are distinct, as empty ones are, any calls that create products, first
-- versions and clones, sign off, withdraw, flag and delete keep no two versions with one id, one library,
-- or one label in a product.
pub run_versions-IsDistinct :
    (cs : List VersionCall) (db : Db)
    → IsDistinct db.versions
    → IsDistinct (run_versions cs db).versions
unfolding run_versions
run_versions-IsDistinct [] db h = h
run_versions-IsDistinct (c ∷ cs) db h =
    run_versions-IsDistinct cs (perform_version c db) (perform_version-IsDistinct c db h)
