-- ===== src/Jobs/Plans.antt =====
-- Which worker runs a claimed job, and with which arguments: `execution_plan` of app/jobs.py.
use smdr.Prelude.{String, Option, none, some, same, concat, if◌then◌else◌}
use smdr.Json
use smdr.Json.{Json, JsonDict}
use smdr.JobStore.Rows.{Job}
use smdr.Jobs.Stores.{upload_key, parsed_key, prematch_key, match_key, rule_check_key}

-- The worker function and its arguments; an argument that `payload.get` reads may be missing.
pub data Plan : Type 0 where
  preprocess_worker :
      Option String
      → Option String
      → String
      → String
      → String
      → Json
      → Option Json
      → Option Json
      → Option Json
      → Option Json
      → Option Json
      → Plan
  discover_layers_worker : Option String → Option String → String → Option Json → Plan
  save_match_worker : Option String → Option String → String → Plan
  rule_check_worker : Option String → Option String → Json → String → Plan

-- A plan, or the message of the exception.
pub data Planned : Type 0 where
  planned : Plan → Planned
  unplanned : String → Planned

-- An id in an f-string
abbrev shown : Option String → String
shown none = "None"
shown (some t) = t

abbrev preprocess_plan : Job → Planned
preprocess_plan job = elim (Json.get job.payload "library_id") [
  | none ↦ unplanned "'library_id'"
  | some library_id ↦
      let v = shown job.version_id in
      let i = shown job.file_id in
      planned (
        preprocess_worker job.version_id job.file_id (upload_key i) (parsed_key v i)
          (prematch_key v i) library_id (Json.get job.payload "selected_layers")
          (Json.get job.payload "transient") (Json.get job.payload "dev_overrides")
          (Json.get job.payload "user_unit_override") (Json.get job.payload "layout_name"))
]

abbrev rule_check_plan : Job → Planned
rule_check_plan job = elim (Json.get job.payload "file_ids") [
  | none ↦ unplanned "'file_ids'"
  | some file_ids ↦ planned (
      rule_check_worker job.product_id job.version_id file_ids
        (rule_check_key (shown job.version_id)))
]

unfoldable pub execution_plan : Job → Planned
execution_plan job =
    if same job.kind "preprocess"
    then preprocess_plan job
    else if same job.kind "discover"
    then planned (
        discover_layers_worker job.version_id job.file_id (upload_key (shown job.file_id))
          (Json.get job.payload "layout_name"))
    else if same job.kind "save_match"
    then planned (
        save_match_worker job.version_id job.file_id
          (match_key (shown job.version_id) (shown job.file_id)))
    else if same job.kind "rule_check"
    then rule_check_plan job
    else unplanned (concat "unknown job kind '" (concat job.kind "'"))
