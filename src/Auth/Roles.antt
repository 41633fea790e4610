-- ===== src/Auth/Roles.antt =====
-- `effective_role` of app/auth.py: the highest role that the grants give a caller in a scope.
use smdr.Table.{select}
use smdr.Prelude.{
  List, Option, Bool, String, ◌&&◌, same, none, ◌||◌, if◌then◌else◌, not, ◌∷◌, some, leb, same_col,
  [],
}
use smdr.Auth.Store.{
  AuthStore, Identity, Grant, is_user, is_global, Role, same_scope, is_bypass, customer, admin,
  product, rank,
}

-- The grantee: the user, or the department if the caller has one.
abbrev pub is_grantee : Identity → Grant → Bool
is_grantee ident g =
    (is_user g.grantee_type && same g.grantee_id ident.userid)
    || (not (same ident.deptid "")
        && not (is_user g.grantee_type)
        && same g.grantee_id ident.deptid)

-- The scope: global, or the customer or the product that is asked for.
abbrev pub is_in_scope : Option String → Option String → Grant → Bool
is_in_scope product_id customer_id g =
    is_global g.scope_type
    || (same_scope g.scope_type customer && same_col customer_id g.scope_id)
    || (same_scope g.scope_type product && same_col product_id g.scope_id)

abbrev pub applies : Identity → Option String → Option String → Grant → Bool
applies ident product_id customer_id g = is_grantee ident g && is_in_scope product_id customer_id g

-- max(..., key=_ROLE_RANK): the first of the highest
unfoldable pub highest : List Grant → Option Role
highest [] = none
highest (g ∷ gs) = elim (highest gs) [
  | none ↦ some g.role
  | some r ↦ if leb (rank r) (rank g.role) then some g.role else some r
]

-- `dev` is `dev_resolve_grants()`, the environment's switch.
unfoldable pub effective_role :
    Bool → Identity → Option String → Option String → AuthStore → Option Role
unfolding highest
effective_role dev ident product_id customer_id s =
    if is_bypass ident && not dev
    then some admin
    else highest (select (applies ident product_id customer_id) s.role_grants)
