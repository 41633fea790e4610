-- ===== src/Files.antt =====
-- The files and their bindings to versions (class FileStore of app/files.py): the rows, the methods, and
-- what a binding is after any calls.
pub mod Rows
pub mod Bindings
pub mod Reads
pub mod Calls
pub mod Maps
pub mod Refinement
pub mod Runs
mod Samples
