-- ===== src/Worker.antt =====
-- The worker loop (app/worker_loop.py): one tick reaps the futures that are done, claims jobs while there
-- are free slots, and keeps the table.
pub mod Ticks
pub mod Queued
pub mod Children
pub mod Reaping
pub mod Claiming
mod Samples
