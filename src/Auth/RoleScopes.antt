-- ===== src/Auth/RoleScopes.antt =====
-- Roles over scopes, by the rules that every grant keeps.
use smdr.Table.Rows.{All-of_select}
use smdr.Table.Members.{All-at, first-none_at}
use smdr.Auth.RoleLaws.{rank_of, effective_role_lem}
use smdr.Auth.Roles.{effective_role, applies}
use mathlib.Core.Bool.{false≢true}
use smdr.Prelude.{
  Bool, ◌&&◌, not, ◌≡◌, false, Option, String, All, some, same, inl, ◌≤◌, arith, inr, true, sym,
  ◌∙◌,
}
use smdr.Auth.Store.{AuthStore, Identity, is_bypass, is_user, admin}
use smdr.Auth.GrantRules.{IsLawful, IsLegal}

module _ (dev : Bool) (ident : Identity) (not_bypassed : (is_bypass ident && not dev) ≡ false)
    (s : AuthStore) (sound : IsLawful s) where
  -- A caller who is not bypassed and is an admin in one scope is an admin in every scope.
  pub admin_everywhere :
      (product_id customer_id product_id' customer_id' : Option String)
      → effective_role dev ident product_id customer_id s ≡ some admin
      → effective_role dev ident product_id' customer_id' s ≡ some admin
  admin_everywhere product_id customer_id product_id' customer_id' e =
      elim (effective_role_lem dev ident not_bypassed product_id customer_id s) [
        | inl (n, _) ↦ cc
        | inr (g, r, m, meets, _) ↦
            let legal = All-at IsLegal s.role_grants sound.legal m in
            let is_admin_grant : g.role ≡ admin = ground arith in
            let (everywhere, of_user) = legal.admin_rule is_admin_grant in
            let meets' : applies ident product_id' customer_id' g ≡ true = ground arith in
            elim (effective_role_lem dev ident not_bypassed product_id' customer_id' s) [
              | inl (n, no_grant) ↦
                  absurd (false≢true (sym (first-none_at _ s.role_grants no_grant m) ∙ meets'))
              | inr (h, r', m', _, top) ↦
                  (let above =
                      All-at _ s.role_grants
                        (All-of_select _ (applies ident product_id' customer_id') s.role_grants top)
                        m meets' in
                    ground arith)
            ]
      ]

  -- A caller who is not bypassed and to whom no grant was given in person can at most view.
  pub dept_views_only :
      (product_id customer_id : Option String)
      → All (λ g. (is_user g.grantee_type && same g.grantee_id ident.userid) ≡ false) s.role_grants
      → rank_of (effective_role dev ident product_id customer_id s) ≤ 1
  dept_views_only product_id customer_id none_in_person =
      elim (effective_role_lem dev ident not_bypassed product_id customer_id s) [
        | inl (n, _) ↦ rw n (omega arith)
        | inr (g, r, m, meets, _) ↦
            let legal = All-at IsLegal s.role_grants sound.legal m in
            let not_mine = All-at _ s.role_grants none_in_person m in rw r (ground arith)
      ]
