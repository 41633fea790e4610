-- ===== src/Versions/Runs.antt =====
-- The calls on the tables of app/versions.py and app/products.py that web replicas make, and their runs
-- in any order. A call that raises leaves the tables as they were.
use smdr.Prelude.{String, List, ◌∷◌, ℕ, Option, Bool, []}
use smdr.Versions.Rows.{Version, Db, after}
use smdr.Versions.Creation.{create_product, create_first, create_clone, delete_for_product}
use smdr.Versions.Methods.{sign_off, unsign, set_check_dam, set_customer, delete_product}

pub data VersionCall : Type 0 where
  add_product : String → String → String → ℕ → String → String → String → VersionCall
  add_first : String → String → ℕ → String → String → VersionCall
  add_clone : String → String → (ℕ → String) → ℕ → ℕ → String → String → Version → VersionCall
  freeze : String → String → ℕ → Option String → Option String → VersionCall
  withdraw : String → VersionCall
  flag_dam : String → Bool → VersionCall
  assign : String → String → VersionCall
  drop_versions : String → VersionCall
  drop_product : String → VersionCall

unfoldable pub perform_version : VersionCall → Db → Db
unfolding set_customer delete_product delete_for_product after
perform_version (add_product product_id vid library_id now name label customer_id) db =
    after db (create_product product_id vid library_id now name label customer_id db)
perform_version (add_first vid library_id now product_id label) db =
    after db (create_first vid library_id now product_id label db)
perform_version (add_clone vid library_id ids now later product_id label source) db =
    after db (create_clone vid library_id ids now later product_id label source db)
perform_version (freeze version_id by now name content_type) db =
    after db (sign_off version_id by now name content_type db)
perform_version (withdraw version_id) db = after db (unsign version_id db)
perform_version (flag_dam version_id value) db = after db (set_check_dam version_id value db)
perform_version (assign product_id customer_id) db = (set_customer product_id customer_id db).1
perform_version (drop_versions product_id) db = (delete_for_product product_id db).1
perform_version (drop_product product_id) db = (delete_product product_id db).1

unfoldable pub run_versions : List VersionCall → Db → Db
run_versions [] db = db
run_versions (c ∷ cs) db = run_versions cs (perform_version c db)
