-- ===== src/JobStore/Rows.antt =====
-- The rows of the table `jobs` (app/jobstore.py): its columns, the states of a job, and the dict that
-- readers get. Columns that hold JSON text are modelled by the value that the text encodes.
use smdr.Prelude.{ℕ, String, Bool, true, false, Option, none, List, same}
use smdr.Json
use smdr.Json.{Json, JsonDict}
use smdr.Table.Keys.{by_key}

abbrev pub stale_after_seconds : ℕ
stale_after_seconds = 120

abbrev pub max_attempts : ℕ
max_attempts = 3

abbrev pub retention_seconds : ℕ
retention_seconds = 604800

pub data Status : Type 0 where
  queued running done error : Status

abbrev pub is_queued : Status → Bool
is_queued queued = true
is_queued _ = false

abbrev pub is_running : Status → Bool
is_running running = true
is_running _ = false

-- status IN ('done','error')
abbrev pub is_finished : Status → Bool
is_finished done = true
is_finished error = true
is_finished _ = false

-- A row of the table `jobs`.
pub record Job : Type 0 where
  pub id : String
  pub kind : String
  pub status : Status
  pub version_id : Option String
  pub file_id : Option String
  pub product_id : Option String
  pub parent_id : Option String
  pub payload : JsonDict
  pub result : Option Json
  pub error_text : Option String
  pub total : Option ℕ
  pub done_count : Option ℕ
  pub attempts : ℕ
  pub submitted_by : Option String
  pub submitted_at : ℕ
  pub started_at : Option ℕ
  pub completed_at : Option ℕ
  pub claimed_by : Option String
  pub heartbeat_at : Option ℕ

abbrev pub Jobs : Type 0
Jobs = List Job

-- _row_to_dict: the row, with the legacy keys of the payload surfaced.
pub record JobDict : Type 0 where
  pub row : Job
  pub skipped : Option Json
  pub errors : Option Json

unfoldable pub row_to_dict : Job → JobDict
row_to_dict j = record {
  row = j;
  skipped = Json.get j.payload "skipped";
  errors = Json.get j.payload "errors";
}

-- The arguments of `insert`.
pub record NewJob : Type 0 where
  pub kind : String
  pub payload : JsonDict
  pub version_id : Option String
  pub file_id : Option String
  pub product_id : Option String
  pub parent_id : Option String
  pub total : Option ℕ
  pub done_count : Option ℕ
  pub status : Status
  pub submitted_by : Option String

unfoldable pub new_row : String → ℕ → NewJob → Job
new_row job_id now n = record {
  id = job_id;
  kind = n.kind;
  status = n.status;
  version_id = n.version_id;
  file_id = n.file_id;
  product_id = n.product_id;
  parent_id = n.parent_id;
  payload = n.payload;
  result = none;
  error_text = none;
  total = n.total;
  done_count = n.done_count;
  attempts = 0;
  submitted_by = n.submitted_by;
  submitted_at = now;
  started_at = none;
  completed_at = none;
  claimed_by = none;
  heartbeat_at = none;
}

abbrev pub has_id : String → Job → Bool
has_id job_id j = same j.id job_id

-- SELECT * FROM jobs WHERE id = ?
abbrev pub row_of : String → Jobs → Option Job
row_of job_id t = by_key (λ j. j.id) job_id t
