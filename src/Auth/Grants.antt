-- ===== src/Auth/Grants.antt =====
-- The grants of app/auth.py: who may be given which role, and the role that the grants give.
-- A method that raises leaves the store as it was, since its transaction is rolled back.
use smdr.Table.Keys.{by_key}
use smdr.Table.{first, order_by, select, delete}
use smdr.Json.{JsonDict}
use smdr.Prelude.{
  String, ℕ, Bool, not, ◌∷◌, if◌then◌else◌, [], is_some, none, some, same, ◌||◌, ◌++◌, false,
  Option, xor, List, true, strip, ◌+◌, ◌&&◌, ◌==◌,
}
use smdr.Json
use smdr.Auth.Store.{
  AuthStore, audit, Grant, Result, AuditRow, GranteeType, err, ok, Role, ScopeType, grantee_type_of,
  bad_grantee_type, role_of, duplicate_grant, bad_role, scope_type_of, bad_scope_type, global, user,
  admin, dept, editor, customer, is_user, is_global, bad_scope_id, product, viewer, is_admin, rank,
  bad_admin, same_scope, is_viewer, bad_dept,
}

-- UNIQUE (grantee_type, grantee_id, role, scope_type, scope_id)
abbrev pub same_grant : Grant → Grant → Bool
same_grant g h =
    not (xor (is_user g.grantee_type) (is_user h.grantee_type))
    && same g.grantee_id h.grantee_id
    && (rank g.role == rank h.role)
    && same_scope g.scope_type h.scope_type
    && same g.scope_id h.scope_id

abbrev pub grant_detail : String → String → String → String → String → JsonDict
grant_detail grantee_type grantee_id role scope_type scope_id =
    ("grantee_type", Json.str grantee_type)
    ∷ ("grantee_id", Json.str grantee_id)
    ∷ ("role", Json.str role)
    ∷ ("scope_type", Json.str scope_type)
    ∷ ("scope_id", Json.str scope_id)
    ∷ []

-- The checks of `add_grant`, in the order of the source.
unfoldable pub check_grant :
    String → String → String → String → Result (GranteeType × Role × ScopeType)
check_grant grantee_type role scope_type scope_id = elim (grantee_type_of grantee_type) [
  | none ↦ err bad_grantee_type
  | some g ↦ elim (role_of role) [
    | none ↦ err bad_role
    | some r ↦ elim (scope_type_of scope_type) [
      | none ↦ err bad_scope_type
      | some s ↦
          if xor (is_global s) (same scope_id "")
          then err bad_scope_id
          else if is_admin r && (not (is_global s) || not (is_user g))
          then err bad_admin
          else if not (is_user g) && not (is_viewer r)
          then err bad_dept
          else ok (g, r, s)
    ]
  ]
]

-- INSERT INTO role_grants, in one transaction with its audit row.
unfoldable pub insert_grant : Grant → AuditRow → AuthStore → Result (Grant × AuthStore)
unfolding audit
insert_grant g row s =
    if is_some (first (λ h. same h.id g.id || same_grant h g) s.role_grants)
    then err duplicate_grant
    else ok (g, audit row (record s { role_grants = s.role_grants ++ g ∷ [] }))

unfoldable pub add_grant :
    String
    → ℕ
    → String
    → String
    → String
    → String
    → String
    → String
    → AuthStore
    → Result (Grant × AuthStore)
unfolding check_grant insert_grant
add_grant gid now grantee_type grantee_id role scope_type scope_id granted_by s =
    elim (check_grant grantee_type role scope_type scope_id) [
      | err e ↦ err e
      | ok (g, r, sc) ↦
          insert_grant
            (record {
              id = gid;
              grantee_type = g;
              grantee_id = grantee_id;
              role = r;
              scope_type = sc;
              scope_id = scope_id;
              granted_by = granted_by;
              granted_at = now;
            })
            (record {
              at_time = now;
              actor = granted_by;
              action = "grant.create";
              product_id = none;
              version_id = none;
              target_type = "grant";
              target_id = gid;
              detail = some (grant_detail grantee_type grantee_id role scope_type scope_id);
            })
            s
    ]

-- SELECT * FROM role_grants WHERE id = ?
abbrev pub grant_of : String → AuthStore → Option Grant
grant_of grant_id s = by_key (λ g. g.id) grant_id s.role_grants

unfoldable pub role_name : Role → String
role_name admin = "admin"
role_name editor = "editor"
role_name viewer = "viewer"

unfoldable pub scope_name : ScopeType → String
scope_name global = "global"
scope_name customer = "customer"
scope_name product = "product"

unfoldable pub grantee_name : GranteeType → String
grantee_name user = "user"
grantee_name dept = "dept"

unfoldable pub revoke_grant : String → String → ℕ → AuthStore → Bool × AuthStore
unfolding audit role_name scope_name grantee_name
revoke_grant grant_id actor now s = elim (grant_of grant_id s) [
  | none ↦ (false, s)
  | some g ↦ (
    true,
    audit
        (record {
          at_time = now;
          actor = actor;
          action = "grant.revoke";
          product_id = none;
          version_id = none;
          target_type = "grant";
          target_id = grant_id;
          detail = some (
              grant_detail (grantee_name g.grantee_type) g.grantee_id (role_name g.role)
                (scope_name g.scope_type) g.scope_id);
        })
        (record s { role_grants = delete (λ h. same h.id grant_id) s.role_grants }),
  )
]

-- The optional filter is given as a pair: both arguments are there, or neither counts.
unfoldable pub list_grants : Option (GranteeType × String) → AuthStore → List Grant
list_grants none s = order_by (λ g. g.granted_at) s.role_grants
list_grants (some (grantee_type, grantee_id)) s =
    order_by (λ g. g.granted_at)
      (select
        (λ g.
          not (xor (is_user g.grantee_type) (is_user grantee_type)) && same g.grantee_id grantee_id)
        s.role_grants)

-- One round of the loop of `bootstrap_admins`: an error, which can only be that the grant is there
-- already, is passed over.
unfoldable pub bootstrap_admin : String → String → ℕ → AuthStore → ℕ × AuthStore
bootstrap_admin uid gid now s =
    if same (strip uid) ""
    then (0, s)
    else elim (add_grant gid now "user" (strip uid) "admin" "global" "" "system" s) [
      | ok (g, s') ↦ (1, s')
      | err e ↦ (0, s)
    ]

-- The listed users, each with the id and the time of its grant.
unfoldable pub bootstrap_admins : List (String × String × ℕ) → AuthStore → ℕ × AuthStore
bootstrap_admins [] s = (0, s)
bootstrap_admins ((uid, gid, now) ∷ rest) s =
    let (n, s') = bootstrap_admin uid gid now s in
    let (m, s'') = bootstrap_admins rest s' in (n + m, s'')
