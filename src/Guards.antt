-- ===== src/Guards.antt =====
-- The guards of app/guards.py in front of the web API: the role that a request needs, and the edit lock.
-- A guard's result is the refusal, or `none` where the handler runs. The request's identity, its
-- parameters ("" where one is absent) and `time.time()` are arguments.
use smdr.Table.{first, select}
use smdr.JobStore.Rows.{JobDict}
use smdr.Prelude.{
  if◌then◌else◌, ◌&&◌, String, Bool, Option, not, ℕ, List, none, same, some, true, is_some,
  same_col, ltb, coalesce,
}
use smdr.Auth.Store.{AuthStore, Identity, Role, is_bypass, rank, admin, viewer, editor}
use smdr.Auth.Roles.{effective_role}
use smdr.Auth.Locks.{lock_holder}
use smdr.Versions.Rows.{Db, Product}
use smdr.Versions.Methods.{get_product}
pub mod Laws
mod Samples

-- HTTP 404, 403 and 423.
pub data GuardError : Type 0 where
  version_not_found : GuardError
  forbidden : Role → GuardError
  locked : Option String → GuardError

-- _product_for: the outer `none` is the 404.
unfoldable pub product_for : String → String → Db → Option (Option String)
product_for product_id version_id db =
    if not (same product_id "")
    then some (some product_id)
    else if same version_id ""
    then some none
    else elim (smdr.Versions.Methods.get version_id db) [
      | none ↦ none
      | some v ↦ some (some v.product_id)
    ]

-- The customer of a product, if it is in the table.
unfoldable pub customer_of : Option String → Db → Option String
customer_of none db = none
customer_of (some p) db = elim (get_product p db) [ none ↦ none | some q ↦ some q.customer_id ]

-- effective_role: the role that the grants give in the product and its customer.
unfoldable pub folded_role : Bool → Identity → Option String → AuthStore → Db → Option Role
folded_role dev ident product_id s db =
    if is_bypass ident && not dev
    then some admin
    else effective_role dev ident product_id (customer_of product_id db) s

-- The second half of _enforce.
unfoldable pub enforce_lock : Identity → Option String → Bool → ℕ → AuthStore → Option GuardError
enforce_lock ident product_id with_lock now s = elim product_id [
  | none ↦ none
  | some p ↦
      let holder = lock_holder p now s in
      if with_lock && not (is_bypass ident) && not (same_col holder ident.userid)
      then some (locked holder)
      else none
]

unfoldable pub enforce :
    Bool → Identity → Option String → Role → Bool → ℕ → AuthStore → Db → Option GuardError
enforce dev ident product_id min_role with_lock now s db =
    elim (folded_role dev ident product_id s db) [
      | none ↦ some (forbidden min_role)
      | some role ↦
          if ltb (rank role) (rank min_role)
          then some (forbidden min_role)
          else enforce_lock ident product_id with_lock now s
    ]

unfoldable pub require_role :
    Role → Bool → Bool → Identity → String → String → ℕ → AuthStore → Db → Option GuardError
require_role min_role with_lock dev ident product_id version_id now s db =
    elim (product_for product_id version_id db) [
      | none ↦ some version_not_found
      | some p ↦ enforce dev ident p min_role with_lock now s db
    ]

unfoldable pub product_of_version : String → Db → Option String
product_of_version version_id db = elim (smdr.Versions.Methods.get version_id db) [
  | none ↦ none
  | some v ↦ some v.product_id
]

-- `job` is what `jobs.get` returns. A job without a version needs a login only.
unfoldable pub job_viewer_guard :
    Bool → Identity → Option JobDict → AuthStore → Db → Option GuardError
job_viewer_guard dev ident job s db = elim job [
  | none ↦ none
  | some j ↦
      let version_id = coalesce j.row.version_id "" in
      if same version_id ""
      then none
      else elim (folded_role dev ident (product_of_version version_id db) s db) [
        | none ↦ some (forbidden viewer)
        | some role ↦ none
      ]
]

unfoldable pub product_of_template : String → Db → Option String
product_of_template template_id db = elim (first (λ t. same t.id template_id) db.templates) [
  | none ↦ none
  | some t ↦ elim (first (λ v. same v.library_id t.library_id) db.versions) [
    | none ↦ none
    | some v ↦ some v.product_id
  ]
]

unfoldable pub template_editor_guard :
    Bool → Identity → String → ℕ → AuthStore → Db → Option GuardError
template_editor_guard dev ident template_id now s db = elim (product_of_template template_id db) [
  | none ↦ none
  | some p ↦ enforce dev ident (some p) editor true now s db
]

unfoldable pub visible_products : Bool → Identity → AuthStore → List Product → List Product
visible_products dev ident s products =
    if is_bypass ident && not dev
    then products
    else select (λ p. is_some (effective_role dev ident (some p.id) (some p.customer_id) s))
        products
