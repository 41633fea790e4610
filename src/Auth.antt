-- ===== src/Auth.antt =====
-- Identity and authorization (class AuthStore of app/auth.py): its tables, the grants and the role that
-- they give, the product edit locks, and the login sessions.
pub mod Store
pub mod Grants
pub mod Roles
pub mod GrantRules
pub mod RoleLaws
pub mod RoleScopes
pub mod Locks
pub mod LockLaws
pub mod LockRuns
pub mod Users
pub mod Sessions
pub mod SessionLaws
pub mod SessionRuns
mod Samples
