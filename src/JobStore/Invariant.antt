-- ===== src/JobStore/Invariant.antt =====
-- What holds of every row of the job table, after any calls in any order.
use smdr.JobStore.Trace.{
  perform, run, Call, settle, submit, report, claim, beat, finish, give_up, set_payload, bump,
  requeue, clean,
}
use smdr.Prelude.{
  ℕ, ◌≤◌, ◌<◌, String, ◌≡◌, true, none, some, arith, is_some, All, ltb, List, ◌∷◌, [], Option-cases,
  inl, inr, All-append, Bool-cases,
}
use smdr.Json.{JsonDict, Json}
use smdr.Table.Rows.{All-update, All-delete}
use smdr.JobStore.Rows.{Job, Jobs, queued, running, NewJob, new_row, max_attempts, row_of}
use smdr.JobStore.Queue.{claimed, is_claimable, is_beaten}
use smdr.JobStore.Lifecycle.{
  requeued, is_requeuable, close_parent, update_payload, add_error, is_complete,
}

-- A row that waits has attempts left and no owner. A running row is either a parent, which nobody
-- claimed and which never beats, or it has an owner, a heartbeat and an attempt.
pub record IsSound (j : Job) : Type 0 where
  pub bounded : j.attempts ≤ max_attempts
  pub waiting :
      j.status ≡ queued
      → (j.attempts < max_attempts) × (j.claimed_by ≡ none) × (j.heartbeat_at ≡ none)
  pub owned :
      j.status ≡ running
      → (is_some j.heartbeat_at ≡ is_some j.claimed_by)
        × (is_some j.heartbeat_at ≡ ltb 0 j.attempts)

pub new_row-IsSound : (job_id : String) (now : ℕ) (n : NewJob) → IsSound (new_row job_id now n)
unfolding new_row
new_row-IsSound job_id now n = ground arith

claimed-IsSound :
    (worker : String) (now : ℕ) (job_id : String) (j : Job)
    → is_claimable job_id j ≡ true
    → IsSound j
    → IsSound (claimed worker now j)
claimed-IsSound worker now job_id j e h = ground arith

beat-IsSound :
    (worker : String) (now : ℕ) (j : Job)
    → is_beaten worker j ≡ true
    → IsSound j
    → IsSound (record j { heartbeat_at = some now })
beat-IsSound worker now j e h = ground arith

requeued-IsSound :
    (now : ℕ) (j : Job) → is_requeuable now j ≡ true → IsSound j → IsSound (requeued j)
requeued-IsSound now j e h = ground arith

close_parent-IsSound :
    (parent_id : String) (now : ℕ) (t : Jobs)
    → All IsSound t
    → All IsSound (close_parent parent_id now t)
unfolding close_parent
close_parent-IsSound parent_id now t h = All-update IsSound _ _ (λ j e s. ground arith) t h

update_payload-IsSound :
    (parent_id : String) (payload : JsonDict) (t : Jobs)
    → All IsSound t
    → All IsSound (update_payload parent_id payload t)
unfolding update_payload
update_payload-IsSound parent_id payload t h =
    All-update IsSound _ _
      (λ j e s. record { bounded = s.bounded; waiting = s.waiting; owned = s.owned }) t h

module _ (t : Jobs) (h : All IsSound t) where
  insert-IsSound :
      (job_id : String) (now : ℕ) (n : NewJob) → All IsSound (perform (submit job_id now n) t)
  unfolding perform
  insert-IsSound job_id now n = elim (Option-cases (row_of job_id t)) [
    | inl e ↦ rw (e, All) (All-append IsSound t _ h (new_row-IsSound job_id now n, tt))
    | inr (j, e) ↦ rw (e, All) h
  ]

  settle-IsSound : (parent_id : String) (now : ℕ) → All IsSound (perform (settle parent_id now) t)
  unfolding perform
  settle-IsSound parent_id now = elim (Option-cases (row_of parent_id t)) [
    | inl e ↦ rw (e, All) h
    | inr (j, e) ↦
        rw (e, All)
          (elim (Bool-cases (is_complete j)) [
            | inl y ↦ rw (y, All) (close_parent-IsSound parent_id now t h)
            | inr n ↦ rw (n, All) h
          ])
  ]

  report-IsSound :
      (parent_id : String) (entry : Json) → All IsSound (perform (report parent_id entry) t)
  unfolding perform
  report-IsSound parent_id entry = elim (Option-cases (row_of parent_id t)) [
    | inl e ↦ rw (e, All) h
    | inr (j, e) ↦
        rw (e, All)
          (elim (Option-cases (add_error j.payload entry)) [
            | inl n ↦ rw (n, All) h
            | inr (payload, y) ↦ rw (y, All) (update_payload-IsSound parent_id payload t h)
          ])
  ]

  -- Every call keeps every row sound.
  pub perform-IsSound : (c : Call) → All IsSound (perform c t)
  perform-IsSound (submit job_id now n) = insert-IsSound job_id now n
  perform-IsSound (settle parent_id now) = settle-IsSound parent_id now
  perform-IsSound (report parent_id entry) = report-IsSound parent_id entry
  perform-IsSound (claim worker now job_id) =
      unfold perform in All-update IsSound _ _ (claimed-IsSound worker now job_id) t h
  perform-IsSound (beat worker now) =
      unfold perform in All-update IsSound _ _ (beat-IsSound worker now) t h
  perform-IsSound (finish job_id result now) =
      unfold perform in All-update IsSound _ _ (λ j e s. ground arith) t h
  perform-IsSound (give_up job_id message now) =
      unfold perform in All-update IsSound _ _ (λ j e s. ground arith) t h
  perform-IsSound (set_payload job_id payload) =
      unfold perform in update_payload-IsSound job_id payload t h
  perform-IsSound (bump parent_id) =
      unfold perform in All-update IsSound _ _ (λ j e s. ground arith) t h
  perform-IsSound (requeue now) =
      unfold perform in All-update IsSound _ _ (requeued-IsSound now) t h
  perform-IsSound (clean now) = unfold perform in All-delete IsSound _ t h

run_from-IsSound : (cs : List Call) (t : Jobs) → All IsSound t → All IsSound (run cs t)
unfolding run
run_from-IsSound [] t h = h
run_from-IsSound (c ∷ cs) t h = run_from-IsSound cs (perform c t) (perform-IsSound t h c)

-- After any calls of any replicas and workers, in any order, from the empty table, each row is sound:
-- no job has more than three attempts, a queued job has attempts left and no owner or heartbeat, and a
-- running job has a heartbeat exactly if it has an owner, and exactly if it has been attempted.
pub run-IsSound : (cs : List Call) → All IsSound (run cs [])
run-IsSound cs = run_from-IsSound cs [] tt
