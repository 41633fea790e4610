-- ===== src/Jobs/Stores.antt =====
-- The state that app/jobs.py works on, the results of its workers, and the keys of app/storage.py.
-- A worker's result is a dict: a key that it may lack is an optional field here. A float is the number that
-- stands for its bits.
use smdr.Prelude.{ℕ, String, Bool, Option, none, some, List, same, concat, if◌then◌else◌}
use smdr.JobStore.Rows.{Jobs}
use smdr.Files.Rows.{FileDb}

-- ---- storage.py
abbrev pub upload_key : String → String
upload_key file_id = concat "uploads/" (concat file_id ".dxf")

-- "{folder}/{version_id}/{file_id}{ending}"
abbrev pub pair_key : String → String → String → String → String
pair_key folder ending version_id file_id =
    concat folder (concat "/" (concat version_id (concat "/" (concat file_id ending))))

abbrev pub parsed_key : String → String → String
parsed_key = pair_key "parsed" ".json"

abbrev pub prematch_key : String → String → String
prematch_key = pair_key "prematch" ".json"

abbrev pub match_key : String → String → String
match_key = pair_key "match" ".json"

abbrev pub rule_check_key : String → String
rule_check_key version_id = concat "rule_check/" (concat version_id ".json")

abbrev pub layer_preview_primitives_key : String → String → String
layer_preview_primitives_key = pair_key "layer_preview" "/primitives.json"

-- ---- the state
-- The tables, and the keys of the stored files.
pub record Stores : Type 0 where
  pub jobs : Jobs
  pub files : FileDb
  pub blobs : List String

abbrev pub on_files : (FileDb → FileDb) → Stores → Stores
on_files f w = record w { files = f w.files }

abbrev pub on_jobs : (Jobs → Jobs) → Stores → Stores
on_jobs f w = record w { jobs = f w.jobs }

-- What a worker returns.
pub record JobResult : Type 0 where
  pub primitive_count : Option ℕ
  pub bbox : Option (Option (ℕ × ℕ × ℕ × ℕ))
  pub background : Option String
  pub insunits : Option ℕ
  pub applied_scale : Option ℕ
  pub detector_factor : Option ℕ
  pub user_unit_override_requested : Option String
  pub dxf_recover_notes : Option String
  pub source_layout : Option String
  pub source_is_paperspace : Bool
  pub needs_layout_pick : Bool

-- A call that returns, or raises with a message; what it wrote before stays. The message of an exception
-- that the code does not raise itself is a fixed text.
pub data Ran : Type 0 where
  returned : Stores → Ran
  raised : String → Stores → Ran

-- A text that is not None and not empty
abbrev pub truthy : Option String → Option String
truthy none = none
truthy (some t) = if same t "" then none else some t
