-- ===== src/Versions/Methods.antt =====
-- The reads of app/versions.py and app/products.py, and what may be changed of a version: sign-off,
-- its withdrawal, and the check-DAM flag. `time.time()` is an argument.
use smdr.Table.Keys.{by_key}
use smdr.Table.{update, order_by, greatest, first, select, count, delete}
use smdr.Prelude.{String, List, Option, Bool, ℕ, same, if◌then◌else◌, none, ltb, some}
use smdr.Versions.Rows.{Version, Product, Db, Tx, version_of, err, key_error, ok, signed_off}

unfoldable pub get : String → Db → Option Version
get version_id db = version_of version_id db

unfoldable pub get_by_library : String → Db → Option Version
get_by_library library_id db = first (λ v. same v.library_id library_id) db.versions

unfoldable pub list_by_product : String → Db → List Version
list_by_product product_id db =
    order_by (λ v. v.created_at) (select (λ v. same v.product_id product_id) db.versions)

unfoldable pub latest_for_product : String → Db → Option Version
latest_for_product product_id db =
    greatest (λ v. v.created_at) (select (λ v. same v.product_id product_id) db.versions)

-- ProductStore.get
unfoldable pub get_product : String → Db → Option Product
get_product product_id db = by_key (λ p. p.id) product_id db.products

unfoldable pub set_customer : String → String → Db → Bool × Db
set_customer product_id customer_id db = (
  ltb 0 (count (λ p. same p.id product_id) db.products),
  record db {
    products =
        update (λ p. same p.id product_id) (λ p. record p { customer_id = customer_id })
          db.products;
  },
)

unfoldable pub delete_product : String → Db → Bool × Db
delete_product product_id db = (
  ltb 0 (count (λ p. same p.id product_id) db.products),
  record db { products = delete (λ p. same p.id product_id) db.products },
)

-- UPDATE versions SET f WHERE id = ?
abbrev pub update_version : String → (Version → Version) → Db → Db
update_version version_id f db = record db {
  versions = update (λ v. same v.id version_id) f db.versions;
}

-- The row is read back after the UPDATE; the `assert` that it is there is the `key_error` here.
unfoldable pub read_back : String → Db → Tx Version
unfolding get
read_back version_id db = elim (get version_id db) [ none ↦ err key_error | some v ↦ ok v db ]

unfoldable pub sign_off : String → String → ℕ → Option String → Option String → Db → Tx Version
unfolding read_back
sign_off version_id by now evidence_name evidence_type db = elim (version_of version_id db) [
  | none ↦ err key_error
  | some v ↦ elim v.signed_off_by [
    | some other ↦ err (signed_off other v.signed_off_at)
    | none ↦ read_back version_id (
        update_version version_id
          (λ w. record w {
            signed_off_by = some by;
            signed_off_at = some now;
            evidence_name = evidence_name;
            evidence_type = evidence_type;
          })
          db)
  ]
]

unfoldable pub unsign : String → Db → Tx Version
unfolding read_back
unsign version_id db =
    if ltb 0 (count (λ v. same v.id version_id) db.versions)
    then read_back version_id (
        update_version version_id
          (λ w. record w {
            signed_off_by = none;
            signed_off_at = none;
            evidence_name = none;
            evidence_type = none;
          })
          db)
    else err key_error

unfoldable pub set_check_dam : String → Bool → Db → Tx Version
unfolding read_back
set_check_dam version_id value db = elim (version_of version_id db) [
  | none ↦ err key_error
  | some v ↦ elim v.signed_off_by [
    | some other ↦ err (signed_off other v.signed_off_at)
    | none ↦
        read_back version_id (update_version version_id (λ w. record w { check_dam = value }) db)
  ]
]
