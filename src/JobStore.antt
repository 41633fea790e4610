-- ===== src/JobStore.antt =====
-- The DB-backed job queue of app/jobstore.py (class JobStore): the rows, the methods, and what holds
-- of every order in which replicas and workers call them.
pub mod Rows
pub mod Queue
pub mod Lifecycle
pub mod Trace
pub mod Invariant
pub mod Claims
pub mod Races
pub mod Frame
pub mod Attempts
pub mod Exclusion
pub mod Upkeep
pub mod Parents
mod Samples
