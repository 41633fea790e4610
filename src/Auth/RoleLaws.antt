-- ===== src/Auth/RoleLaws.antt =====
-- What `effective_role` of app/auth.py promises.
use smdr.Table.Rows.{first-select_nil, Memᴰ-select}
use smdr.Auth.Grants.{revoke_grant, add_grant}
use smdr.Table.{select, delete, first}
use smdr.Auth.Roles.{highest, effective_role, applies}
use mathlib.Core.List.{Memᴰ}
use smdr.Prelude.{
  refl, Option, List, Bool, ℕ, All, ◌≡◌, some, true, ◌≤◌, none, arith, ◌++◌, ◌∷◌, [], Option-cases,
  All-weaken, inl, inr, ◌&&◌, Bool-cases, not, false, leb, String, ◌⊎◌, ◌∙◌, subst, ap, sym,
  if◌then◌else◌,
}
use smdr.Auth.Store.{AuthStore, Grant, Role, rank, Identity, is_bypass, ok}
use smdr.Auth.GrantRules.{IsAdded, IsAddOf, revoke_grant-grants, add_grant-IsAddOf}

-- The rank of a role that may be missing.
abbrev pub rank_of : Option Role → ℕ
rank_of none = 0
rank_of (some r) = rank r

highest-bound : (gs : List Grant) → All (λ g. rank g.role ≤ rank_of (highest gs)) gs
unfolding highest
highest-bound [] = tt
highest-bound (g ∷ gs) = (
  ground arith,
  All-weaken _ (λ h. rank h.role ≤ rank_of (highest (g ∷ gs))) gs (λ h b. ground arith)
      (highest-bound gs),
)

highest-attained :
    (gs : List Grant) (r : Role) → highest gs ≡ some r → (g : Grant) × Memᴰ g gs × (g.role ≡ r)
unfolding highest
highest-attained [] r e = cc
highest-attained (g ∷ gs) r e = elim (Option-cases (highest gs)) [
  | inl n ↦ (g, Memᴰ.head refl, ground arith)
  | inr (m, e') ↦ elim (Bool-cases (leb (rank m) (rank g.role))) [
    | inl y ↦ (g, Memᴰ.head refl, ground arith)
    | inr n ↦
        let (h, mem, same_role) = highest-attained gs r (ground arith) in
        (h, Memᴰ.tail mem, same_role)
  ]
]

highest-none : (gs : List Grant) → highest gs ≡ none → gs ≡ []
unfolding highest
highest-none [] e = refl
highest-none (g ∷ gs) e = ground arith

module _ (p : Grant → Bool) where
  highest-append :
      (t u : List Grant) → rank_of (highest (select p t)) ≤ rank_of (highest (select p (t ++ u)))
  unfolding highest select
  highest-append [] u = omega arith
  highest-append (g ∷ t) u = ground (arith, highest-append t u)

  highest-append_new :
      (t : List Grant) (g : Grant)
      → p g ≡ true
      → rank g.role ≤ rank_of (highest (select p (t ++ g ∷ [])))
  unfolding highest select
  highest-append_new [] g e = ground arith
  highest-append_new (h ∷ t) g e = ground (arith, highest-append_new t g e)

  highest-delete :
      (q : Grant → Bool) (t : List Grant)
      → rank_of (highest (select p (delete q t))) ≤ rank_of (highest (select p t))
  unfolding highest select delete
  highest-delete q [] = omega arith
  highest-delete q (g ∷ t) = ground (arith, highest-delete q t)

module _ (dev : Bool) (ident : Identity) (not_bypassed : (is_bypass ident && not dev) ≡ false)
    (product_id customer_id : Option String) where
  effective_role-eq :
      (s : AuthStore)
      → effective_role dev ident product_id customer_id s
        ≡ highest (select (applies ident product_id customer_id) s.role_grants)
  unfolding effective_role
  effective_role-eq s = rw not_bypassed

  -- The role of a caller who is not bypassed: none exactly if no grant applies in the scope, and otherwise
  -- the role of a grant that applies, such that no grant that applies has a higher one.
  pub effective_role_lem :
      (s : AuthStore)
      → ((effective_role dev ident product_id customer_id s ≡ none)
          × (first (applies ident product_id customer_id) s.role_grants ≡ none))
        ⊎ ((g : Grant) × (effective_role dev ident product_id customer_id s ≡ some g.role)
            × Memᴰ g s.role_grants
            × (applies ident product_id customer_id g ≡ true)
            × All
                (λ h. rank h.role ≤ rank g.role)
                (select (applies ident product_id customer_id) s.role_grants))
  effective_role_lem s = elim (Option-cases (highest (select in_scope s.role_grants))) [
    | inl e ↦
        inl (effective_role-eq s ∙ e, first-select_nil in_scope s.role_grants (highest-none _ e))
    | inr (r, e) ↦
        let (g, m, same_role) = highest-attained _ r e in
        let (m', meets) = Memᴰ-select in_scope s.role_grants m in
        inr (
          g,
          effective_role-eq s ∙ e ∙ ap some (sym same_role),
          m',
          meets,
          All-weaken _ _ _ (λ h b. ground arith) (highest-bound (select in_scope s.role_grants)),
        )
  ]
    where
      in_scope : Grant → Bool
      in_scope = applies ident product_id customer_id

  module _ (gid : String) (now : ℕ)
      (grantee_type grantee_id role scope_type scope_id granted_by : String) (s s' : AuthStore)
      (g : Grant)
      (added : add_grant gid now grantee_type grantee_id role scope_type scope_id granted_by s
        ≡ ok (g, s')) where
    add_grant-IsAdded : IsAdded s g s'
    add_grant-IsAdded =
        subst (IsAddOf s) added
          (add_grant-IsAddOf gid now grantee_type grantee_id role scope_type scope_id granted_by s)

    new_role :
        (p : Grant → Bool) (t : List Grant)
        → (if p g then rank g.role else 0) ≤ rank_of (highest (select p (t ++ g ∷ [])))
    new_role p t = elim (Bool-cases (p g)) [
      | inl y ↦ rw y (highest-append_new p t g y)
      | inr n ↦ rw n (omega arith)
    ]

    -- A grant that `add_grant` adds lowers no caller's role in any scope, and where it applies the caller
    -- has at least its role.
    pub effective_role-add_grant :
        (rank_of (effective_role dev ident product_id customer_id s)
          ≤ rank_of (effective_role dev ident product_id customer_id s'))
        × ((if applies ident product_id customer_id g then rank g.role else 0)
            ≤ rank_of (effective_role dev ident product_id customer_id s'))
    effective_role-add_grant =
        rw (effective_role-eq s, effective_role-eq s', add_grant-IsAdded.grants)
          (
            highest-append (applies ident product_id customer_id) s.role_grants (g ∷ []),
            new_role (applies ident product_id customer_id) s.role_grants,
          )

  -- Revoking a grant raises no caller's role in any scope.
  pub effective_role-revoke_grant :
      (s : AuthStore) (grant_id actor : String) (now : ℕ)
      → rank_of
          (effective_role dev ident product_id customer_id (revoke_grant grant_id actor now s).1)
        ≤ rank_of (effective_role dev ident product_id customer_id s)
  effective_role-revoke_grant s grant_id actor now =
      rw
        (
          effective_role-eq s,
          effective_role-eq (revoke_grant grant_id actor now s).1,
          revoke_grant-grants grant_id actor now s,
        )
        (highest-delete (applies ident product_id customer_id) _ s.role_grants)
