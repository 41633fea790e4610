-- ===== src/Guards/Laws.antt =====
-- What the guards of app/guards.py promise.
use smdr.Table.Members.{All-of_mem, select_agree}
use smdr.Table.Inserts.{select_whole}
use smdr.Table.Keys.{IsKeyed, by_key-mem}
use smdr.Prelude.{
  if◌then◌else◌, ◌&&◌, ◌≡◌, false, sym, ◌∙◌, Option-cases, inl, arith, inr, eq_iff, refl,
  Bool-cases, ap, Bool, Option, String, ℕ, true, some, is_some, none, not, ltb,
}
use smdr.Auth.Store.{AuthStore, Identity, Role, is_bypass, rank, viewer, admin, editor}
use smdr.Versions.Rows.{Db, Product}
use smdr.Guards.{
  enforce, enforce_lock, folded_role, visible_products, GuardError, customer_of, same, forbidden,
}
use smdr.Auth.Locks.{lock_holder}
use smdr.Auth.Roles.{effective_role}
use smdr.Versions.Methods.{get_product}
use smdr.Table.{first, select}

enforce_lock-holder :
    (a : Identity) (p : String) (now : ℕ) (s : AuthStore)
    → is_bypass a ≡ false
    → enforce_lock a (some p) true now s ≡ none
    → lock_holder p now s ≡ some a.userid
unfolding enforce_lock
enforce_lock-holder a p now s n e = elim (Option-cases (lock_holder p now s)) [
  | inl q ↦ ground arith
  | inr (h, q) ↦ ground (arith, eq_iff h a.userid)
]

-- Who passes with the lock, not bypassed, holds it.
enforce-holder :
    (dev : Bool) (a : Identity) (p : String) (role : Role) (now : ℕ) (s : AuthStore) (db : Db)
    → is_bypass a ≡ false
    → enforce dev a (some p) role true now s db ≡ none
    → lock_holder p now s ≡ some a.userid
unfolding enforce
enforce-holder dev a p role now s db n e = elim (Option-cases (folded_role dev a (some p) s db)) [
  | inl q ↦ ground arith
  | inr (r, q) ↦ ground (arith, enforce_lock-holder a p now s n)
]

-- Of two callers who are not bypassed, no two with different ids pass a guard with the edit lock on one
-- product at one time, whatever roles it asks of them.
pub writers_exclude :
    (dev : Bool) (a b : Identity) (p : String) (role_a role_b : Role) (now : ℕ) (s : AuthStore)
    (db : Db)
    → is_bypass a ≡ false
    → is_bypass b ≡ false
    → enforce dev a (some p) role_a true now s db ≡ none
    → enforce dev b (some p) role_b true now s db ≡ none
    → a.userid ≡ b.userid
writers_exclude dev a b p role_a role_b now s db na nb ea eb = inj (
    sym (enforce-holder dev a p role_a now s db na ea)
    ∙ enforce-holder dev b p role_b now s db nb eb)
  where
    inj : {x y : String} → some x ≡ some y → x ≡ y
    inj q = cc

abbrev pub is_passed : Option GuardError → Bool
is_passed o = not (is_some o)

enforce_lock-unlocked :
    (ident : Identity) (o : Option String) (now : ℕ) (s : AuthStore)
    → enforce_lock ident o false now s ≡ none
unfolding enforce_lock
enforce_lock-unlocked ident none now s = refl
enforce_lock-unlocked ident (some p) now s = refl

viewer_passes :
    (ident : Identity) (o : Option String) (now : ℕ) (s : AuthStore) (r : Role)
    → is_passed (
        if ltb (rank r) (rank viewer)
        then some (forbidden viewer)
        else enforce_lock ident o false now s)
      ≡ true
viewer_passes ident o now s admin = rw (enforce_lock-unlocked ident o now s) refl
viewer_passes ident o now s editor = rw (enforce_lock-unlocked ident o now s) refl
viewer_passes ident o now s viewer = rw (enforce_lock-unlocked ident o now s) refl

-- A viewer's guard without the lock lets through whom the grants give any role.
enforce-viewer :
    (dev : Bool) (ident : Identity) (product_id : Option String) (now : ℕ) (s : AuthStore) (db : Db)
    → is_passed (enforce dev ident product_id viewer false now s db)
      ≡ is_some (folded_role dev ident product_id s db)
unfolding enforce
enforce-viewer dev ident product_id now s db =
    elim (Option-cases (folded_role dev ident product_id s db)) [
      | inl q ↦ ground arith
      | inr (r, q) ↦ rw (q, enforce) (viewer_passes ident product_id now s r)
    ]

folded_role-bypassed :
    (dev : Bool) (ident : Identity) (product_id : Option String) (s : AuthStore) (db : Db)
    → (is_bypass ident && not dev) ≡ true
    → folded_role dev ident product_id s db ≡ some admin
unfolding folded_role
folded_role-bypassed dev ident product_id s db b = rw b refl

customer_of-there :
    (p : Product) (db : Db)
    → first (λ q. same q.id p.id) db.products ≡ some p
    → customer_of (some p.id) db ≡ some p.customer_id
unfolding customer_of get_product
customer_of-there p db at = rw (at, customer_of) refl

folded_role-there :
    (dev : Bool) (ident : Identity) (p : Product) (s : AuthStore) (db : Db)
    → (is_bypass ident && not dev) ≡ false
    → first (λ q. same q.id p.id) db.products ≡ some p
    → effective_role dev ident (some p.id) (some p.customer_id) s
      ≡ folded_role dev ident (some p.id) s db
unfolding folded_role
folded_role-there dev ident p s db n at = rw (n, customer_of-there p db at) refl

-- The list shows, of the products in the table, whose ids are distinct, those that a viewer's guard lets
-- through, and no others.
pub visible_products-guard :
    (dev : Bool) (ident : Identity) (now : ℕ) (s : AuthStore) (db : Db)
    → IsKeyed (λ p. p.id) db.products
    → visible_products dev ident s db.products
      ≡ select (λ p. is_passed (enforce dev ident (some p.id) viewer false now s db)) db.products
unfolding visible_products
visible_products-guard dev ident now s db h = elim (Bool-cases (is_bypass ident && not dev)) [
  | inl b ↦ rw b (
      sym (
        select_whole _ db.products (
          All-of_mem _ db.products (λ p m.
            enforce-viewer dev ident (some p.id) now s db
            ∙ ap is_some (folded_role-bypassed dev ident (some p.id) s db b)))))
  | inr n ↦ rw n (
      select_agree _ _ db.products (λ p m.
        ap is_some (folded_role-there dev ident p s db n (by_key-mem (λ q. q.id) db.products h m))
        ∙ sym (enforce-viewer dev ident (some p.id) now s db)))
]
