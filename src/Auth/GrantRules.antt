-- ===== src/Auth/GrantRules.antt =====
-- The semantic rules of grants hold of every grant, whatever calls are made.
use smdr.Table.Rows.{first-none_of, All-delete, delete-none}
use smdr.Table.{first, delete}
use smdr.Auth.Grants.{
  add_grant, check_grant, same_grant, revoke_grant, bootstrap_admins, insert_grant, grant_of,
  bootstrap_admin,
}
use smdr.Prelude.{
  refl, List, All, String, ◌≡◌, ℕ, ◌∷◌, arith, [], same, same_swap, Option-cases, ◌||◌, inl, inr,
  none, ◌++◌, ◌⊎◌, Bool, subst, sym, strip, All-append,
}
use smdr.Auth.Store.{
  AuthStore, Grant, Result, ok, admin, err, global, user, dept, viewer, is_global, AuditRow,
  GranteeType, Role, ScopeType,
}
use smdr.Table.Unique.{IsUnique, IsUnique-append, IsUnique-delete}

-- An admin grant is global and of a user, a grant of a department is for viewing, and a grant is global
-- exactly if it names no scope.
pub record IsLegal (g : Grant) : Type 0 where
  pub admin_rule : g.role ≡ admin → (g.scope_type ≡ global) × (g.grantee_type ≡ user)
  pub dept_rule : g.grantee_type ≡ dept → g.role ≡ viewer
  pub scope_rule : is_global g.scope_type ≡ same g.scope_id ""

-- The calls that change grants.
pub data GrantCall : Type 0 where
  add : String → ℕ → String → String → String → String → String → String → GrantCall
  revoke : String → String → ℕ → GrantCall
  bootstrap : List (String × String × ℕ) → GrantCall

-- A call that raises leaves the store as it was.
unfoldable pub kept : AuthStore → Result (Grant × AuthStore) → AuthStore
kept s (ok (g, s')) = s'
kept s (err e) = s

unfoldable pub perform_grant : GrantCall → AuthStore → AuthStore
unfolding kept
perform_grant (add gid now grantee_type grantee_id role scope_type scope_id granted_by) s =
    kept s (add_grant gid now grantee_type grantee_id role scope_type scope_id granted_by s)
perform_grant (revoke grant_id actor now) s = (revoke_grant grant_id actor now s).1
perform_grant (bootstrap users) s = (bootstrap_admins users s).1

unfoldable pub run_grants : List GrantCall → AuthStore → AuthStore
run_grants [] s = s
run_grants (c ∷ cs) s = run_grants cs (perform_grant c s)

-- Every grant is legal, and no two grants agree in what they give, to whom and where.
pub record IsLawful (s : AuthStore) : Type 0 where
  pub legal : All IsLegal s.role_grants
  pub unique : IsUnique same_grant s.role_grants

same_grant-swap : (g h : Grant) → same_grant g h ≡ same_grant h g
same_grant-swap g h =
    ground (arith, same_swap g.grantee_id h.grantee_id, same_swap g.scope_id h.scope_id)

check_grant-IsLegal :
    (grantee_type role scope_type scope_id : String) (g : Grant)
    → check_grant grantee_type role scope_type scope_id ≡ ok (g.grantee_type, g.role, g.scope_type)
    → g.scope_id ≡ scope_id
    → IsLegal g
unfolding check_grant
check_grant-IsLegal grantee_type role scope_type scope_id g e i = ground arith

-- What a successful `add_grant` has done.
pub record IsAdded (s : AuthStore) (g : Grant) (s' : AuthStore) : Type 0 where
  pub legal : IsLegal g
  pub fresh : first (λ x. same_grant x g) s.role_grants ≡ none
  pub grants : s'.role_grants ≡ s.role_grants ++ g ∷ []

abbrev pub IsAddOf : AuthStore → Result (Grant × AuthStore) → Type 0
IsAddOf s (err e) = Unit
IsAddOf s (ok (g, s')) = IsAdded s g s'

insert_grant-IsAddOf :
    (g : Grant) (row : AuditRow) (s : AuthStore) → IsLegal g → IsAddOf s (insert_grant g row s)
insert_grant-IsAddOf g row s legal = elim (Option-cases (first taken s.role_grants)) [
  | inl e ↦
      unfold insert_grant in
      rw (e, IsAddOf)
        (record {
          legal = legal;
          fresh = first-none_of taken (λ x. same_grant x g) (λ a h. ground arith) s.role_grants e;
          grants = refl;
        })
  | inr (x, e) ↦ unfold insert_grant in rw (e, IsAddOf) tt
]
  where
    taken : Grant → Bool
    taken x = same x.id g.id || same_grant x g

module _ (gid : String) (now : ℕ)
    (grantee_type grantee_id role scope_type scope_id granted_by : String) (s : AuthStore) where
  -- `add_grant` raises, or adds a legal grant that was not there.
  pub add_grant-IsAddOf :
      IsAddOf s (add_grant gid now grantee_type grantee_id role scope_type scope_id granted_by s)
  unfolding add_grant
  add_grant-IsAddOf = go (check_grant grantee_type role scope_type scope_id) refl
    where
      go :
          (r : Result (GranteeType × Role × ScopeType))
          → check_grant grantee_type role scope_type scope_id ≡ r
          → IsAddOf s
              (add_grant gid now grantee_type grantee_id role scope_type scope_id granted_by s)
      go (err e) q = rw (q, IsAddOf) tt
      go (ok (g, r, sc)) q =
          rw (q, IsAddOf)
            (insert_grant-IsAddOf _ _ s
              (check_grant-IsLegal grantee_type role scope_type scope_id _ q refl))

kept-IsLawful :
    (s : AuthStore) (r : Result (Grant × AuthStore))
    → IsAddOf s r
    → IsLawful s
    → IsLawful (kept s r)
unfolding kept
kept-IsLawful s (err e) a h = h
kept-IsLawful s (ok (g, s')) a h = record {
  legal =
      subst (All IsLegal) (sym a.grants) (All-append IsLegal s.role_grants _ h.legal (a.legal, tt));
  unique =
      subst (IsUnique same_grant) (sym a.grants)
        (IsUnique-append same_grant same_grant-swap g s.role_grants a.fresh h.unique);
}

pub revoke_grant-grants :
    (grant_id actor : String) (now : ℕ) (s : AuthStore)
    → (revoke_grant grant_id actor now s).1.role_grants
      ≡ delete (λ g. same g.id grant_id) s.role_grants
unfolding revoke_grant
revoke_grant-grants grant_id actor now s = elim (Option-cases (grant_of grant_id s)) [
  | inl e ↦ ground (arith, delete-none (λ g. same g.id grant_id) s.role_grants e)
  | inr (g, e) ↦ ground arith
]

revoke_grant-IsLawful :
    (grant_id actor : String) (now : ℕ) (s : AuthStore)
    → IsLawful s
    → IsLawful (revoke_grant grant_id actor now s).1
revoke_grant-IsLawful grant_id actor now s h = record {
  legal =
      subst (All IsLegal) (sym (revoke_grant-grants grant_id actor now s))
        (All-delete IsLegal _ s.role_grants h.legal);
  unique =
      subst (IsUnique same_grant) (sym (revoke_grant-grants grant_id actor now s))
        (IsUnique-delete same_grant _ s.role_grants h.unique);
}

bootstrap_admin-kept :
    (uid gid : String) (now : ℕ) (s : AuthStore)
    → ((bootstrap_admin uid gid now s).1 ≡ s)
      ⊎ ((bootstrap_admin uid gid now s).1
          ≡ kept s (add_grant gid now "user" (strip uid) "admin" "global" "" "system" s))
unfolding bootstrap_admin kept
bootstrap_admin-kept uid gid now s = ground arith

bootstrap_admin-IsLawful :
    (uid gid : String) (now : ℕ) (s : AuthStore)
    → IsLawful s
    → IsLawful (bootstrap_admin uid gid now s).1
bootstrap_admin-IsLawful uid gid now s h = elim (bootstrap_admin-kept uid gid now s) [
  | inl e ↦ subst IsLawful (sym e) h
  | inr e ↦ subst IsLawful (sym e) (
      kept-IsLawful s _
        (add_grant-IsAddOf gid now "user" (strip uid) "admin" "global" "" "system" s) h)
]

bootstrap_admins-IsLawful :
    (users : List (String × String × ℕ)) (s : AuthStore)
    → IsLawful s
    → IsLawful (bootstrap_admins users s).1
unfolding bootstrap_admins
bootstrap_admins-IsLawful [] s h = h
bootstrap_admins-IsLawful ((uid, gid, now) ∷ rest) s h =
    bootstrap_admins-IsLawful rest (bootstrap_admin uid gid now s).1
      (bootstrap_admin-IsLawful uid gid now s h)

perform_grant-IsLawful : (c : GrantCall) (s : AuthStore) → IsLawful s → IsLawful (perform_grant c s)
unfolding perform_grant
perform_grant-IsLawful (add gid now grantee_type grantee_id role scope_type scope_id granted_by) s
      h =
    kept-IsLawful s _
      (add_grant-IsAddOf gid now grantee_type grantee_id role scope_type scope_id granted_by s) h
perform_grant-IsLawful (revoke grant_id actor now) s h =
    revoke_grant-IsLawful grant_id actor now s h
perform_grant-IsLawful (bootstrap users) s h = bootstrap_admins-IsLawful users s h

-- From a store whose grants are legal and distinct, as a new one's are, any calls that add, revoke or
-- bootstrap grants, whatever texts they are given and whether they raise or not, keep them so.
pub run_grants-IsLawful :
    (cs : List GrantCall) (s : AuthStore) → IsLawful s → IsLawful (run_grants cs s)
unfolding run_grants
run_grants-IsLawful [] s h = h
run_grants-IsLawful (c ∷ cs) s h =
    run_grants-IsLawful cs (perform_grant c s) (perform_grant-IsLawful c s h)
