-- ===== src/Jobs.antt =====
-- The background jobs (app/jobs.py): what a job is submitted with, which worker runs it, and what its end
-- does to the tables and the stored files.
pub mod Stores
pub mod Plans
pub mod Submit
pub mod Reprocess
pub mod Eligible
pub mod Expected
pub mod Batch
pub mod Effects
pub mod Preprocessed
pub mod Kept
pub mod Rescale
pub mod StaleMatch
mod Samples
