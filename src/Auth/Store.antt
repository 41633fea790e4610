-- ===== src/Auth/Store.antt =====
-- The tables of app/auth.py, and the caller's identity. Times are whole seconds.
use smdr.Prelude.{
  ◌++◌, ℕ, String, List, Bool, Option, ◌∷◌, true, false, if◌then◌else◌, [], same, some, none,
}
use smdr.Json.{JsonDict}

pub data Role : Type 0 where
  viewer editor admin : Role

pub data ScopeType : Type 0 where
  global customer product : ScopeType

pub data GranteeType : Type 0 where
  user dept : GranteeType

-- _ROLE_RANK
abbrev pub rank : Role → ℕ
rank viewer = 1
rank editor = 2
rank admin = 3

abbrev pub is_global : ScopeType → Bool
is_global global = true
is_global _ = false

abbrev pub is_admin : Role → Bool
is_admin admin = true
is_admin _ = false

abbrev pub is_viewer : Role → Bool
is_viewer viewer = true
is_viewer _ = false

abbrev pub is_user : GranteeType → Bool
is_user user = true
is_user dept = false

abbrev pub same_scope : ScopeType → ScopeType → Bool
same_scope global global = true
same_scope customer customer = true
same_scope product product = true
same_scope _ _ = false

-- `role in ROLES`, with the role that is meant.
unfoldable pub role_of : String → Option Role
role_of s =
    if same s "admin"
    then some admin
    else if same s "editor"
    then some editor
    else if same s "viewer"
    then some viewer
    else none

unfoldable pub scope_type_of : String → Option ScopeType
scope_type_of s =
    if same s "global"
    then some global
    else if same s "customer"
    then some customer
    else if same s "product"
    then some product
    else none

unfoldable pub grantee_type_of : String → Option GranteeType
grantee_type_of s = if same s "user" then some user else if same s "dept" then some dept else none

pub data Source : Type 0 where
  session bypass test : Source

abbrev pub is_bypass_source : Source → Bool
is_bypass_source bypass = true
is_bypass_source _ = false

pub record Identity : Type 0 where
  pub userid : String
  pub deptid : String
  pub name : String
  pub email : String
  pub description : String
  pub source : Source

abbrev pub is_bypass : Identity → Bool
is_bypass ident = is_bypass_source ident.source

pub record User : Type 0 where
  pub userid : String
  pub oidc_sub : Option String
  pub email : Option String
  pub name : Option String
  pub deptid : Option String
  pub deptname : Option String
  pub company : Option String
  pub twsitecode : Option String
  pub description : Option String
  pub created_at : ℕ
  pub last_login_at : Option ℕ

pub record Customer : Type 0 where
  pub id : String
  pub name : String
  pub created_at : ℕ

pub record Grant : Type 0 where
  pub id : String
  pub grantee_type : GranteeType
  pub grantee_id : String
  pub role : Role
  pub scope_type : ScopeType
  pub scope_id : String
  pub granted_by : String
  pub granted_at : ℕ

-- The row's id is its place in the log.
pub record AuditRow : Type 0 where
  pub at_time : ℕ
  pub actor : String
  pub action : String
  pub product_id : Option String
  pub version_id : Option String
  pub target_type : String
  pub target_id : String
  pub detail : Option JsonDict

pub record EditLock : Type 0 where
  pub product_id : String
  pub held_by : String
  pub acquired_at : ℕ
  pub heartbeat_at : ℕ

pub record Session : Type 0 where
  pub id : String
  pub userid : String
  pub created_at : ℕ
  pub last_seen_at : ℕ
  pub expires_at : ℕ
  pub csrf_token : String

pub record AuthStore : Type 0 where
  pub users : List User
  pub customers : List Customer
  pub role_grants : List Grant
  pub audit_log : List AuditRow
  pub product_edit_locks : List EditLock
  pub sessions : List Session

-- The semantic violations that raise GrantError.
pub data GrantError : Type 0 where
  bad_grantee_type bad_role bad_scope_type bad_scope_id bad_admin bad_dept duplicate_grant :
      GrantError
  missing_username seed_customer : GrantError

pub data Result {ℓ} (A : Type ℓ) : Type ℓ where
  ok : A → Result A
  err : GrantError → Result A

-- _audit
unfoldable pub audit : AuditRow → AuthStore → AuthStore
audit row s = record s { audit_log = s.audit_log ++ row ∷ [] }
