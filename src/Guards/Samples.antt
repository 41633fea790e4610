-- ===== src/Guards/Samples.antt =====
-- The guards of app/guards.py for two editors and one product.
use smdr.Prelude.{false, ◌∷◌, ◌≡◌, [], refl}
use smdr.Auth.Store.{AuthStore, Identity, Grant, session, user, editor, product, viewer}
use smdr.Versions.Rows.{Db, Product}
use smdr.Prelude.{some, true, none}
use smdr.Auth.Roles.{effective_role}
use smdr.Auth.Locks.{lock_holder}
use smdr.Table.{first, select}
use smdr.Guards.{enforce, enforce_lock, folded_role, visible_products, locked}
use smdr.Guards.Laws.{writers_exclude, visible_products-guard, is_passed}

abbrev eve : Identity
eve = record {
  userid = "eve";
  deptid = "";
  name = "";
  email = "";
  description = "";
  source = session;
}

abbrev eves_grant : Grant
eves_grant = record {
  id = "g1";
  grantee_type = user;
  grantee_id = "eve";
  role = editor;
  scope_type = product;
  scope_id = "p";
  granted_by = "alice";
  granted_at = 1;
}

abbrev auth_store : AuthStore
auth_store = record {
  users = [];
  customers = [];
  role_grants = eves_grant ∷ [];
  audit_log = [];
  product_edit_locks =
      record { product_id = "p"; held_by = "eve"; acquired_at = 100; heartbeat_at = 130 } ∷ [];
  sessions = [];
}

abbrev lid : Product
lid = record { id = "p"; name = "lid"; created_at = 1; customer_id = "uncategorized" }

abbrev ring : Product
ring = record { id = "q"; name = "ring"; created_at = 2; customer_id = "uncategorized" }

abbrev product_db : Db
product_db = record {
  products = lid ∷ ring ∷ [];
  versions = [];
  libraries = [];
  classes = [];
  templates = [];
  version_files = [];
}

eve_passes : enforce false eve (some "p") editor true 200 auth_store product_db ≡ none
unfolding enforce folded_role effective_role select enforce_lock lock_holder first
eve_passes = refl

-- Half an hour later the lock is no longer hers.
eve_late : enforce false eve (some "p") editor true 2000 auth_store product_db ≡ some (locked none)
unfolding enforce folded_role effective_role select enforce_lock lock_holder first
eve_late = refl

eve_sees : visible_products false eve auth_store product_db.products ≡ lid ∷ []
unfolding visible_products effective_role select
eve_sees = refl

writers_exclude_example : eve.userid ≡ eve.userid
writers_exclude_example =
    writers_exclude false eve eve "p" editor editor 200 auth_store product_db refl refl eve_passes
      eve_passes

visible_products-guard_example :
    visible_products false eve auth_store product_db.products
    ≡ select
        (λ p. is_passed (enforce false eve (some p.id) viewer false 200 auth_store product_db))
        product_db.products
unfolding first
visible_products-guard_example =
    visible_products-guard false eve 200 auth_store product_db (refl, (refl, tt))
