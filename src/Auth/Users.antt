-- ===== src/Auth/Users.antt =====
-- The users of app/auth.py, whose row is written at each login from the claims of the token.
use smdr.Table.{delete, order_by, first, count, update}
use smdr.Table.Keys.{by_key}
use smdr.Prelude.{
  Option, List, String, ℕ, Bool, some, if◌then◌else◌, is_some, none, same, true, ◌||◌, ◌∷◌, [], ltb,
  ◌++◌, false,
}
use smdr.Json
use smdr.Auth.Store.{
  AuthStore, User, Result, audit, Customer, err, missing_username, seed_customer, ok,
}

-- The claims that the login reads; `none` is an absent claim.
pub record Claims : Type 0 where
  pub preferred_username : Option String
  pub sub : Option String
  pub email : Option String
  pub name : Option String
  pub deptid : Option String
  pub deptname : Option String
  pub company : Option String
  pub twsitecode : Option String
  pub description : Option String

-- SELECT * FROM users WHERE userid = ?
unfoldable pub get_user : String → AuthStore → Option User
get_user userid s = by_key (λ u. u.userid) userid s.users

-- The columns that a login refreshes.
unfoldable pub refresh : Claims → ℕ → User → User
refresh c now u = record u {
  oidc_sub = c.sub;
  email = c.email;
  name = c.name;
  deptid = c.deptid;
  deptname = c.deptname;
  company = c.company;
  twsitecode = c.twsitecode;
  description = c.description;
  last_login_at = some now;
}

unfoldable pub first_row : Claims → String → ℕ → User
first_row c userid now = record {
  userid = userid;
  oidc_sub = c.sub;
  email = c.email;
  name = c.name;
  deptid = c.deptid;
  deptname = c.deptname;
  company = c.company;
  twsitecode = c.twsitecode;
  description = c.description;
  created_at = now;
  last_login_at = some now;
}

abbrev claim_json : Option String → Json.Json
claim_json none = Json.null
claim_json (some s) = Json.str s

unfoldable pub login_row : Claims → String → ℕ → AuthStore → Bool × AuthStore
unfolding refresh first_row get_user audit
login_row c userid now s = elim (get_user userid s) [
  | none ↦ (
    true,
    audit
        (record {
          at_time = now;
          actor = userid;
          action = "user.first_login";
          product_id = none;
          version_id = none;
          target_type = "user";
          target_id = userid;
          detail = some (("deptid", claim_json c.deptid) ∷ []);
        })
        (record s { users = s.users ++ first_row c userid now ∷ [] }),
  )
  | some u ↦
      (false, record s { users = update (λ v. same v.userid userid) (refresh c now) s.users })
]

-- The `assert` on the row that is read back is the `none` inside: it does not happen.
unfoldable pub upsert_user_from_claims :
    Claims → ℕ → AuthStore → Result (Option User × Bool × AuthStore)
unfolding login_row
upsert_user_from_claims c now s = elim c.preferred_username [
  | none ↦ err missing_username
  | some userid ↦
      if same userid ""
      then err missing_username
      else let (first_login, s') = login_row c userid now s in
        ok (get_user userid s', first_login, s')
]

-- ---- customers
abbrev pub seed_customer_id : String
seed_customer_id = "uncategorized"

-- `none` is the IntegrityError of an id or a name that is taken.
unfoldable pub create_customer : String → String → String → ℕ → AuthStore → Option AuthStore
unfolding audit
create_customer cid name actor now s =
    if is_some (first (λ c. same c.id cid || same c.name name) s.customers)
    then none
    else some (
        audit
          (record {
            at_time = now;
            actor = actor;
            action = "customer.create";
            product_id = none;
            version_id = none;
            target_type = "customer";
            target_id = cid;
            detail = some (("name", Json.str name) ∷ []);
          })
          (record s {
            customers = s.customers ++ (record { id = cid; name = name; created_at = now }) ∷ [];
          }))

unfoldable pub get_customer : String → AuthStore → Option Customer
get_customer customer_id s = by_key (λ c. c.id) customer_id s.customers

unfoldable pub list_customers : AuthStore → List Customer
list_customers s = order_by (λ c. c.created_at) s.customers

unfoldable pub delete_customer : String → String → ℕ → AuthStore → Result (Bool × AuthStore)
unfolding audit
delete_customer customer_id actor now s =
    let s' = record s { customers = delete (λ c. same c.id customer_id) s.customers } in
    if same customer_id seed_customer_id
    then err seed_customer
    else if ltb 0 (count (λ c. same c.id customer_id) s.customers)
    then ok (
      true,
      audit
          (record {
            at_time = now;
            actor = actor;
            action = "customer.delete";
            product_id = none;
            version_id = none;
            target_type = "customer";
            target_id = customer_id;
            detail = none;
          })
          s',
    )
    else ok (false, s')
