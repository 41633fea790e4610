-- ===== src/JobStore/Upkeep.antt =====
-- The upkeep of the job table in app/jobstore.py: heartbeats, stale jobs and retention.
use smdr.Table.Keys.{by_key-update, IsKeyed-append, by_key-delete}
use smdr.Table.Rows.{
  length-delete, select-update, select-update_rest, first-append, update-map, delete-select,
  count-length,
}
use smdr.Table.{select, update, first}
use smdr.JobStore.Queue.{heartbeat, insert, is_beaten}
use smdr.JobStore.Rows.{
  Status, Job, Jobs, NewJob, row_of, done, new_row, stale_after_seconds, row_to_dict, queued,
}
use smdr.JobStore.Lifecycle.{
  requeue_stale, prune, stale_exhausted, is_expired, is_requeuable, is_silent, is_exhausted,
  requeued,
}
use smdr.Prelude.{
  refl, String, ℕ, Bool, ◌≡◌, some, [], length, true, ◌≤◌, ◌+◌, arith, ap, map, subst, none, sym,
  ◌++◌, ◌∷◌, same, eq_refl, if◌then◌else◌, not, false, ltb, ◌*◌, ◌&&◌,
}
use smdr.JobStore.Claims.{HasIds}

-- A running job that has attempts left and whose last heartbeat is more than two minutes old.
abbrev pub is_stalled : ℕ → Job → Bool
is_stalled now j = elim j.heartbeat_at [
  | none ↦ false
  | some beat ↦ elim j.status [
    | Status.running ↦ ltb (beat + 120) now && ltb j.attempts 3
    | Status.queued ↦ false
    | Status.done ↦ false
    | Status.error ↦ false
  ]
]

abbrev pub put_back : Job → Job
put_back j = record j { status = queued; claimed_by = none; heartbeat_at = none }

-- Requeuing at `now` puts every running job that has attempts left and was silent for more than two
-- minutes back in the queue, without owner or heartbeat, and leaves every other row as it is; it returns
-- how many it put back. What `stale_exhausted` then returns is what it returned before, and no other
-- silent job is left.
pub requeue_stale-partition :
    (now : ℕ) (t : Jobs)
    → ((requeue_stale now t).0 ≡ map (λ j. if is_stalled now j then put_back j else j) t)
      × ((requeue_stale now t).1 ≡ length (select (is_stalled now) t))
      × (stale_exhausted now (requeue_stale now t).0 ≡ stale_exhausted now t)
      × (select (is_silent now) (requeue_stale now t).0 ≡ select (is_exhausted now) t)
unfolding requeue_stale stale_exhausted
requeue_stale-partition now t = (
  update-map (is_requeuable now) (is_stalled now) put_back (stalled now) t,
  count-length (is_requeuable now) (is_stalled now) (stalled now) t,
  ap (map row_to_dict)
      (select-update (is_exhausted now) (is_requeuable now) requeued (λ j e. ground arith) t),
  select-update_rest (is_silent now) (is_requeuable now) (is_exhausted now) requeued
      (λ j e. ground arith) (λ j e. ground arith) t,
)
  where
    stalled : (now : ℕ) (j : Job) → is_requeuable now j ≡ is_stalled now j
    stalled now j = ground arith

-- A running job whose owner beat at `now` is left alone by a requeue up to two minutes later.
pub heartbeat_protects :
    (worker : String) (now later : ℕ) (k : String) (t : Jobs) (j : Job)
    → row_of k t ≡ some j
    → is_beaten worker j ≡ true
    → later ≤ now + stale_after_seconds
    → row_of k (requeue_stale later (heartbeat worker now t).0).0
      ≡ some (record j { heartbeat_at = some now })
unfolding requeue_stale heartbeat
heartbeat_protects worker now later k t j e b soon = ground (
  arith,
  by_key-update (λ i. i.id) (is_beaten worker) (λ i. record i { heartbeat_at = some now })
      (λ i. refl) k t,
  by_key-update (λ i. i.id) (is_requeuable later) requeued (λ i. refl) k
      (update (is_beaten worker) (λ i. record i { heartbeat_at = some now }) t),
)

-- A job that ended more than seven days ago.
abbrev pub is_past_retention : ℕ → Job → Bool
is_past_retention now j = elim j.completed_at [
  | none ↦ false
  | some ended ↦ elim j.status [
    | Status.queued ↦ false
    | Status.running ↦ false
    | Status.done ↦ ltb (ended + 7 * 24 * 60 * 60) now
    | Status.error ↦ ltb (ended + 7 * 24 * 60 * 60) now
  ]
]

-- Pruning at `now` keeps, in their order, exactly the rows that are not of a done or failed job that
-- ended more than seven days before; its rowcount is the number of rows that it removed.
pub prune-exact :
    (now : ℕ) (t : Jobs)
    → ((prune now t).0 ≡ select (λ j. not (is_past_retention now j)) t)
      × (length (prune now t).0 + (prune now t).1 ≡ length t)
unfolding prune
prune-exact now t = (
  delete-select (is_expired now) (is_past_retention now) (λ j. ground arith) t,
  length-delete (is_expired now) t,
)

insert-some :
    (k : String) (now : ℕ) (n : NewJob) (t t' : Jobs)
    → insert k now n t ≡ some t'
    → (row_of k t ≡ none) × (t' ≡ t ++ new_row k now n ∷ [])
unfolding insert
insert-some k now n t t' e = ground arith

-- A job that is submitted as done already, as the parent of an empty reprocess-all is, has no time of
-- completion, and no pruning removes it.
pub done_parent_stays :
    (k : String) (now later : ℕ) (n : NewJob) (t t' : Jobs)
    → n.status ≡ done
    → HasIds t
    → insert k now n t ≡ some t'
    → row_of k (prune later t').0 ≡ some (new_row k now n)
done_parent_stays k now later n t t' d h e =
    let (fresh, t'-eq) = insert-some k now n t t' e in
    let h' : HasIds t' =
      subst HasIds (sym t'-eq)
        (IsKeyed-append (λ j. j.id) (new_row k now n) t (unfold new_row in fresh) h) in
    let there : row_of k t' ≡ some (new_row k now n) = rw t'-eq (
      unfold new_row first in
      ground (arith, first-append (λ j. same j.id k) t (new_row k now n ∷ []), eq_refl k)) in
    unfold prune new_row in
    ground (arith, by_key-delete (λ j. j.id) (is_expired later) k t' h', there)
