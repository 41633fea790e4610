-- ===== src/JobStore/Lifecycle.antt =====
-- The life of a claimed job in app/jobstore.py: completion, parents of a reprocess-all, and upkeep.
-- `t < now - age` is written `t + age < now`, which is the same of reals; SQL's `<` fails on NULL.
use smdr.Prelude.{
  ℕ, ◌+◌, String, Bool, false, ◌&&◌, Option, none, some, List, map, coalesce, ltb, leb,
  if◌then◌else◌,
}
use smdr.Json
use smdr.Json.{Json, JsonDict, nil}
use smdr.Table.{select, update, delete, count}
use smdr.JobStore.Rows.{
  Job, Jobs, JobDict, row_to_dict, row_of, has_id, is_running, is_finished, queued, done, error,
  max_attempts, stale_after_seconds, retention_seconds,
}
use smdr.JobStore.Queue.{get}

-- ---- completion
unfoldable pub complete : String → Option Json → ℕ → Jobs → Jobs
complete job_id result now t =
    update (has_id job_id)
      (λ j. record j { status = done; completed_at = some now; result = result }) t

unfoldable pub fail : String → String → ℕ → Jobs → Jobs
fail job_id message now t =
    update (has_id job_id)
      (λ j. record j { status = error; completed_at = some now; error_text = some message }) t

unfoldable pub update_payload : String → JsonDict → Jobs → Jobs
update_payload job_id payload t = update (has_id job_id) (λ j. record j { payload = payload }) t

-- The UPDATE of `bump_parent_done`.
unfoldable pub bump_done : String → Jobs → Jobs
bump_done parent_id t =
    update (has_id parent_id) (λ j. record j { done_count = some (coalesce j.done_count 0 + 1) }) t

-- The test on the parent dict that `bump_parent_done` reads back.
unfoldable pub is_complete : Job → Bool
is_complete j = elim j.total [
  | none ↦ false
  | some n ↦ is_running j.status && leb n (coalesce j.done_count 0)
]

-- The second transaction of `bump_parent_done`.
unfoldable pub close_parent : String → ℕ → Jobs → Jobs
close_parent parent_id now t =
    update (λ j. has_id parent_id j && is_running j.status)
      (λ j. record j { status = done; completed_at = some now }) t

-- The reads after the bump: the parent is closed if its last child is done.
unfoldable pub settle_parent : String → ℕ → Jobs → Option JobDict × Jobs
unfolding is_complete close_parent
settle_parent parent_id now t = elim (row_of parent_id t) [
  | none ↦ (none, t)
  | some j ↦
      if is_complete j
      then (get parent_id (close_parent parent_id now t), close_parent parent_id now t)
      else (get parent_id t, t)
]

unfoldable pub bump_parent_done : String → ℕ → Jobs → Option JobDict × Jobs
unfolding bump_done settle_parent
bump_parent_done parent_id now t = settle_parent parent_id now (bump_done parent_id t)

-- payload.setdefault("errors", []).append(entry): `none` is the AttributeError of what is no list.
unfoldable pub add_error : JsonDict → Json → Option JsonDict
add_error payload entry = elim (Json.get payload "errors") [
  | none ↦ some (Json.put payload "errors" (Json.arr (Json.append nil entry)))
  | some (Json.arr xs) ↦ some (Json.put payload "errors" (Json.arr (Json.append xs entry)))
  | some _ ↦ none
]

-- A parent that is gone is passed over. `none`: the method raises, and the table is as it was.
unfoldable pub append_parent_error : String → Json → Jobs → Option Jobs
unfolding add_error update_payload
append_parent_error parent_id entry t = elim (row_of parent_id t) [
  | none ↦ some t
  | some j ↦ elim (add_error j.payload entry) [
    | none ↦ none
    | some payload ↦ some (update_payload parent_id payload t)
  ]
]

-- ---- maintenance
-- c < now - age
abbrev pub is_older : Option ℕ → ℕ → ℕ → Bool
is_older none age now = false
is_older (some t) age now = ltb (t + age) now

abbrev pub is_silent : ℕ → Job → Bool
is_silent now j = is_running j.status && is_older j.heartbeat_at stale_after_seconds now

abbrev pub is_requeuable : ℕ → Job → Bool
is_requeuable now j = is_silent now j && ltb j.attempts max_attempts

abbrev pub is_exhausted : ℕ → Job → Bool
is_exhausted now j = is_silent now j && leb max_attempts j.attempts

abbrev pub requeued : Job → Job
requeued j = record j { status = queued; claimed_by = none; heartbeat_at = none }

unfoldable pub requeue_stale : ℕ → Jobs → Jobs × ℕ
requeue_stale now t = (update (is_requeuable now) requeued t, count (is_requeuable now) t)

unfoldable pub stale_exhausted : ℕ → Jobs → List JobDict
stale_exhausted now t = map row_to_dict (select (is_exhausted now) t)

abbrev pub is_expired : ℕ → Job → Bool
is_expired now j = is_finished j.status && is_older j.completed_at retention_seconds now

unfoldable pub prune : ℕ → Jobs → Jobs × ℕ
prune now t = (delete (is_expired now) t, count (is_expired now) t)
