-- ===== src/JobStore/Trace.antt =====
-- The calls on the job table that web replicas and workers make, and their runs in any order. A method
-- of two transactions is two calls here, so that others can come between them.
use smdr.Prelude.{ℕ, String, Option, List, [], ◌∷◌, coalesce}
use smdr.Json.{Json, JsonDict}
use smdr.JobStore.Rows.{Jobs, NewJob}
use smdr.JobStore.Queue.{insert, try_claim, heartbeat}
use smdr.JobStore.Lifecycle.{
  complete, fail, update_payload, bump_done, settle_parent, append_parent_error, requeue_stale,
  prune,
}

pub data Call : Type 0 where
  submit : String → ℕ → NewJob → Call
  claim : String → ℕ → String → Call
  beat : String → ℕ → Call
  finish : String → Option Json → ℕ → Call
  give_up : String → String → ℕ → Call
  set_payload : String → JsonDict → Call
  bump : String → Call
  settle : String → ℕ → Call
  report : String → Json → Call
  requeue : ℕ → Call
  clean : ℕ → Call

-- A call that raises leaves the table as it was.
unfoldable pub perform : Call → Jobs → Jobs
unfolding insert try_claim heartbeat complete fail update_payload bump_done settle_parent
    append_parent_error requeue_stale prune
perform (submit job_id now n) t = coalesce (insert job_id now n t) t
perform (claim worker now job_id) t = (try_claim worker now job_id t).0
perform (beat worker now) t = (heartbeat worker now t).0
perform (finish job_id result now) t = complete job_id result now t
perform (give_up job_id message now) t = fail job_id message now t
perform (set_payload job_id payload) t = update_payload job_id payload t
perform (bump parent_id) t = bump_done parent_id t
perform (settle parent_id now) t = (settle_parent parent_id now t).1
perform (report parent_id entry) t = coalesce (append_parent_error parent_id entry t) t
perform (requeue now) t = (requeue_stale now t).0
perform (clean now) t = (prune now t).0

unfoldable pub run : List Call → Jobs → Jobs
run [] t = t
run (c ∷ cs) t = run cs (perform c t)
