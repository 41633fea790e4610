-- ===== src/Jobs/Batch.antt =====
-- What the INSERTs of the reprocess-all of app/jobs.py leave in the table of jobs.
use smdr.Prelude.{Bool, String, some, none, Option, if◌then◌else◌}
use smdr.Json.{Json}
use smdr.Versions.Methods.{get as version_row}
use smdr.JobStore.Rows.{Jobs}

-- The answer of a reprocess-all, by whether every row was added.
abbrev answer : String → Bool × Jobs → Option String × Jobs
answer parent_id a = (if a.0 then some parent_id else none, a.1)
