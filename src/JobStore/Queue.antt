-- ===== src/JobStore/Queue.antt =====
-- The queue of app/jobstore.py: submission, the reads, and the claim protocol.
-- A method takes the table and returns the new one; `time.time()` and `uuid.uuid4()` are arguments.
-- Times are whole seconds.
use smdr.Prelude.{
  ℕ, ◌+◌, String, Bool, ◌&&◌, ◌||◌, Option, none, some, List, [], ◌∷◌, ◌++◌, map, same, same_col,
  coalesce, ltb, if◌then◌else◌,
}
use smdr.Table.{select, first, update, count, least, greatest, order_by}
use smdr.JobStore.Rows.{
  Job, Jobs, JobDict, NewJob, new_row, row_to_dict, row_of, has_id, is_queued, is_running, running,
}

-- `none` is the IntegrityError of a primary key that is taken; the table is then as it was.
unfoldable pub insert : String → ℕ → NewJob → Jobs → Option Jobs
unfolding new_row
insert job_id now n t = elim (row_of job_id t) [
  | none ↦ some (t ++ new_row job_id now n ∷ [])
  | some _ ↦ none
]

-- ---- reads
unfoldable pub get : String → Jobs → Option JobDict
get job_id t = elim (row_of job_id t) [ none ↦ none | some j ↦ some (row_to_dict j) ]

unfoldable pub list_all : Jobs → List JobDict
list_all t = map row_to_dict (order_by (λ j. j.submitted_at) t)

abbrev pub is_inflight : String → String → String → Job → Bool
is_inflight kind version_id file_id j =
    same j.kind kind
    && same_col j.version_id version_id
    && same_col j.file_id file_id
    && (is_queued j.status || is_running j.status)

unfoldable pub find_inflight : String → String → String → Jobs → Option String
find_inflight kind version_id file_id t = elim (first (is_inflight kind version_id file_id) t) [
  | none ↦ none
  | some j ↦ some j.id
]

unfoldable pub latest_for_version : String → String → Jobs → Option JobDict
latest_for_version kind version_id t =
    elim (greatest (λ j. j.submitted_at)
      (select (λ j. same j.kind kind && same_col j.version_id version_id) t)) [
        | none ↦ none
        | some j ↦ some (row_to_dict j)
      ]

-- ---- claim protocol
-- The SELECT: the queued job that was submitted first.
unfoldable pub next_queued : Jobs → Option Job
next_queued t = least (λ j. j.submitted_at) (select (λ j. is_queued j.status) t)

abbrev pub claimed : String → ℕ → Job → Job
claimed worker now j = record j {
  status = running;
  claimed_by = some worker;
  started_at = some now;
  heartbeat_at = some now;
  attempts = j.attempts + 1;
}

abbrev pub is_claimable : String → Job → Bool
is_claimable job_id j = has_id job_id j && is_queued j.status

-- The conditional UPDATE, with its rowcount.
unfoldable pub try_claim : String → ℕ → String → Jobs → Jobs × ℕ
try_claim worker now job_id t =
    (update (is_claimable job_id) (claimed worker now) t, count (is_claimable job_id) t)

-- What the other replicas do to the table while one round of `claim_next` runs: between its SELECT
-- and its UPDATE, and between its UPDATE and the read of the claimed row.
pub record Round : Type 0 where
  pub before_update : Jobs → Jobs
  pub before_get : Jobs → Jobs

abbrev pub undisturbed : Round
undisturbed = record { before_update = λ t. t; before_get = λ t. t }

-- One round of the loop: `none` is a lost race. The result is what `claim_next` returns.
unfoldable pub claim_round : String → ℕ → Round → Jobs → Option (Option JobDict) × Jobs
claim_round worker now r t = elim (next_queued t) [
  | none ↦ (some none, t)
  | some j ↦
      let (t', won) = try_claim worker now j.id (r.before_update t) in
      if ltb 0 won then (some (get j.id (r.before_get t')), r.before_get t') else (none, t')
]

-- `while True`: the loop over the rounds in which others interfere, and then one undisturbed round.
unfoldable pub claim_next : String → ℕ → List Round → Jobs → Option JobDict × Jobs
claim_next worker now [] t =
    let (out, t') = claim_round worker now undisturbed t in (coalesce out none, t')
claim_next worker now (r ∷ rounds) t =
    let (out, t') = claim_round worker now r t in
    elim out [ none ↦ claim_next worker now rounds t' | some d ↦ (d, t') ]

abbrev pub is_beaten : String → Job → Bool
is_beaten worker j = same_col j.claimed_by worker && is_running j.status

unfoldable pub heartbeat : String → ℕ → Jobs → Jobs × ℕ
heartbeat worker now t = (
  update (is_beaten worker) (λ j. record j { heartbeat_at = some now }) t,
  count (is_beaten worker) t,
)
