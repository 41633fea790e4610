-- ===== src/Versions.antt =====
-- The versions of a product (class VersionStore of app/versions.py) and the products themselves
-- (app/products.py): creation by cloning, the sign-off that freezes a version, and deletion.
pub mod Rows
pub mod Methods
pub mod Creation
pub mod Runs
pub mod Labels
pub mod Distinct
pub mod Freeze
pub mod CloneSteps
pub mod Clones
mod Samples
