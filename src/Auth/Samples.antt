-- ===== src/Auth/Samples.antt =====
-- The stores of app/auth.py on small examples.
use smdr.Auth.RoleScopes.{admin_everywhere, dept_views_only}
use smdr.Auth.SessionRuns.{run_sessions, resolve, clean, session_ends}
use smdr.Auth.SessionLaws.{
  HasSessions, resolve_session-delete, resolve_session-prune, resolve_session-create,
}
use smdr.Auth.LockRuns.{run_locks, acquire, release, held_through_ttl}
use smdr.Auth.Roles.{effective_role, applies}
use smdr.Auth.Locks.{acquire_lock, lock_holder, lock_of}
use smdr.Table.{first, select, update}
use smdr.Auth.RoleLaws.{
  rank_of, effective_role-add_grant, effective_role-revoke_grant, effective_role_lem,
}
use smdr.Auth.LockLaws.{AcquireOutcome, acquire_lock-outcome, HasLocks}
use smdr.Auth.GrantRules.{
  IsLawful, run_grants, run_grants-IsLawful, perform_grant, GrantCall, IsLegal, bootstrap, add,
}
use smdr.Auth.Grants.{
  add_grant, check_grant, bootstrap_admins, bootstrap_admin, revoke_grant, grant_detail,
  insert_grant,
}
use smdr.Auth.Sessions.{
  resolve_session, create_session, SessionInfo, delete_session, prune_sessions,
}
use mathlib.Core.Option.{map as map_option, none, some}
use mathlib.Core.List.{Memᴰ, [], List}
use smdr.Auth.Store.{product}
use smdr.Table.{count}
use smdr.Prelude.{refl, String, ◌≡◌, false, ◌≤◌, arith, strip, ◌⊎◌, true, All, ◌∷◌}
use smdr.Auth.Store.{
  AuthStore, EditLock, Identity, rank, Grant, AuditRow, session, dept, user, grantee_type_of, admin,
  viewer, editor, role_of, global, scope_type_of, ok,
}

abbrev alice : Identity
alice = record {
  userid = "alice";
  deptid = "";
  name = "";
  email = "";
  description = "";
  source = session;
}

abbrev bob : Identity
bob = record {
  userid = "bob";
  deptid = "d1";
  name = "";
  email = "";
  description = "";
  source = session;
}

abbrev admin_grant : Grant
admin_grant = record {
  id = "g1";
  grantee_type = user;
  grantee_id = "alice";
  role = admin;
  scope_type = global;
  scope_id = "";
  granted_by = "system";
  granted_at = 1;
}

abbrev dept_grant : Grant
dept_grant = record {
  id = "g2";
  grantee_type = dept;
  grantee_id = "d1";
  role = viewer;
  scope_type = product;
  scope_id = "p";
  granted_by = "alice";
  granted_at = 2;
}

abbrev bobs_lock : EditLock
bobs_lock = record { product_id = "p"; held_by = "bob"; acquired_at = 100; heartbeat_at = 130 }

abbrev empty_store : AuthStore
empty_store = record {
  users = [];
  customers = [];
  role_grants = [];
  audit_log = [];
  product_edit_locks = [];
  sessions = [];
}

abbrev store : AuthStore
store = record empty_store {
  role_grants = admin_grant ∷ dept_grant ∷ [];
  product_edit_locks = bobs_lock ∷ [];
}

abbrev calls : List GrantCall
calls =
    bootstrap ((" alice ", "g1", 1) ∷ [])
    ∷ add "g2" 2 "dept" "d1" "viewer" "product" "p" "alice"
    ∷ add "g3" 3 "dept" "d1" "admin" "global" "" "alice"
    ∷ []

-- The third call raises: a department gets no admin grant.
calls_run : (run_grants calls empty_store).role_grants ≡ admin_grant ∷ dept_grant ∷ []
unfolding run_grants perform_grant bootstrap_admins bootstrap_admin strip add_grant check_grant
    grantee_type_of role_of scope_type_of insert_grant first
calls_run = refl

empty-IsLawful : IsLawful empty_store
empty-IsLawful = record { legal = tt; unique = tt }

run_grants-IsLawful_example : IsLawful (run_grants calls empty_store)
run_grants-IsLawful_example = run_grants-IsLawful calls empty_store empty-IsLawful

store-IsLawful : IsLawful store
store-IsLawful = record {
  legal = (admin-IsLegal, (dept-IsLegal, tt));
  unique = unfold first in (refl, (refl, tt));
}
  where
    admin-IsLegal : IsLegal admin_grant
    admin-IsLegal = record {
      admin_rule = λ e. (refl, refl);
      dept_rule = λ e. cc;
      scope_rule = refl;
    }

    dept-IsLegal : IsLegal dept_grant
    dept-IsLegal = record { admin_rule = λ e. cc; dept_rule = λ e. refl; scope_rule = refl }

effective_role_lem_example :
    ((effective_role false bob (some "p") none store ≡ none)
      × (first (applies bob (some "p") none) store.role_grants ≡ none))
    ⊎ ((g : Grant) × (effective_role false bob (some "p") none store ≡ some g.role)
        × Memᴰ g store.role_grants
        × (applies bob (some "p") none g ≡ true)
        × All
            (λ h. rank h.role ≤ rank g.role)
            (select (applies bob (some "p") none) store.role_grants))
effective_role_lem_example = effective_role_lem false bob refl (some "p") none store

alice_is_admin : effective_role false alice (some "p") none store ≡ some admin
unfolding effective_role select
alice_is_admin = refl

admin_everywhere_example : effective_role false alice none (some "c") store ≡ some admin
admin_everywhere_example =
    admin_everywhere false alice refl store store-IsLawful (some "p") none none (some "c")
      alice_is_admin

dept_views_only_example : rank_of (effective_role false bob (some "p") none store) ≤ 1
dept_views_only_example =
    dept_views_only false bob refl store store-IsLawful (some "p") none (refl, (refl, tt))

abbrev edit_grant : Grant
edit_grant = record {
  id = "g4";
  grantee_type = user;
  grantee_id = "bob";
  role = editor;
  scope_type = product;
  scope_id = "p";
  granted_by = "alice";
  granted_at = 4;
}

abbrev edit_audit : AuditRow
edit_audit = record {
  at_time = 4;
  actor = "alice";
  action = "grant.create";
  product_id = none;
  version_id = none;
  target_type = "grant";
  target_id = "g4";
  detail = some (grant_detail "user" "bob" "editor" "product" "p");
}

abbrev store_with_editor : AuthStore
store_with_editor = record store {
  role_grants = admin_grant ∷ dept_grant ∷ edit_grant ∷ [];
  audit_log = edit_audit ∷ [];
}

editor_added :
    add_grant "g4" 4 "user" "bob" "editor" "product" "p" "alice" store
    ≡ ok (edit_grant, store_with_editor)
unfolding add_grant check_grant grantee_type_of role_of scope_type_of insert_grant first
editor_added = refl

effective_role-add_grant_example :
    (rank_of (effective_role false bob (some "p") none store)
      ≤ rank_of (effective_role false bob (some "p") none store_with_editor))
    × (2 ≤ rank_of (effective_role false bob (some "p") none store_with_editor))
effective_role-add_grant_example =
    effective_role-add_grant false bob refl (some "p") none "g4" 4 "user" "bob" "editor" "product"
      "p" "alice" store store_with_editor edit_grant editor_added

effective_role-revoke_grant_example :
    rank_of (effective_role false bob (some "p") none (revoke_grant "g2" "alice" 5 store).1)
    ≤ rank_of (effective_role false bob (some "p") none store)
effective_role-revoke_grant_example =
    effective_role-revoke_grant false bob refl (some "p") none store "g2" "alice" 5

store-HasLocks : HasLocks store
unfolding first
store-HasLocks = (refl, tt)

acquire_lock-outcome_example :
    AcquireOutcome "p" "alice" 200 store (acquire_lock "p" "alice" 200 store)
acquire_lock-outcome_example = acquire_lock-outcome "p" "alice" 200 store store-HasLocks

alice_is_refused : (acquire_lock "p" "alice" 200 store).0.acquired ≡ false
unfolding acquire_lock count first
alice_is_refused = refl

-- After 430 the heartbeat of 130 is older than the TTL.
alice_steals : lock_holder "p" 431 (acquire_lock "p" "alice" 431 store).1 ≡ some "alice"
unfolding acquire_lock lock_holder count update first
alice_steals = refl

bobs_lock_there : lock_of "p" store.product_edit_locks ≡ some bobs_lock
unfolding first
bobs_lock_there = refl

held_through_ttl_example :
    lock_holder "p" 430
      (run_locks (acquire "p" "alice" 300 ∷ release "p" "alice" false 310 ∷ []) store)
    ≡ some "bob"
held_through_ttl_example =
    held_through_ttl bobs_lock (acquire "p" "alice" 300 ∷ release "p" "alice" false 310 ∷ []) store
      430 store-HasLocks bobs_lock_there ((λ e. (refl, omega arith)), ((λ e. (refl, refl)), tt))
      (omega arith)

abbrev logged_in : AuthStore
logged_in = record store {
  sessions =
      (record {
        id = "t1";
        userid = "alice";
        created_at = 0;
        last_seen_at = 0;
        expires_at = 86400;
        csrf_token = "x";
      })
      ∷ [];
}

-- The identity stands for the hash.
alice_logs_in : create_session (λ t. t) "t1" "x" "alice" 0 store ≡ some logged_in
unfolding create_session first
alice_logs_in = refl

session_ends_example :
    (resolve_session
      (λ t. t)
      "t1"
      86401
      (run_sessions (λ t. t) (resolve "t1" 70 ∷ clean 80 ∷ []) logged_in)).0
    ≡ none
session_ends_example =
    session_ends (λ t. t) "t1" "x" "alice" 0 86401 store logged_in (resolve "t1" 70 ∷ clean 80 ∷ [])
      alice_logs_in tt (tt, (tt, tt)) (omega arith)

resolve_session-create_example :
    map_option {B = String × String}
      (λ (i : SessionInfo). (i.userid, i.csrf_token))
      (resolve_session (λ t. t) "t1" 28800 logged_in).0
    ≡ some ("alice", "x")
resolve_session-create_example =
    resolve_session-create (λ t. t) "t1" "x" "alice" 0 store logged_in alice_logs_in 28800

logged_in-HasSessions : HasSessions logged_in
unfolding first
logged_in-HasSessions = (refl, tt)

resolve_session-prune_example :
    (resolve_session (λ t. t) "t1" 90 (prune_sessions 80 logged_in).1).0
    ≡ (resolve_session (λ t. t) "t1" 90 logged_in).0
resolve_session-prune_example =
    resolve_session-prune (λ t. t) "t1" 80 90 logged_in logged_in-HasSessions (omega arith)

resolve_session-delete_example :
    (resolve_session (λ t. t) "t1" 90 (delete_session (λ t. t) "t1" logged_in).1).0 ≡ none
resolve_session-delete_example =
    resolve_session-delete (λ t. t) "t1" 90 logged_in logged_in-HasSessions
