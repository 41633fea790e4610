-- ===== src/Jobs/Submit.antt =====
-- The submissions of app/jobs.py. The id and the time of the INSERT are arguments, `json.loads` and the
-- snapshot of the development overrides are parameters, and the embedded worker's start is left out.
-- `none` is an exception; what was written before it stays, as the tables that the caller keeps.
use smdr.Prelude.{ℕ, String, Option, none, some, List, [], ◌∷◌}
use smdr.Json.{Json, JsonDict, Items, nil, cons}
use smdr.JobStore.Rows.{Jobs, NewJob, queued}
use smdr.JobStore.Queue.{insert, find_inflight}
use smdr.Files.Rows.{FileDb, FileRecord}
use smdr.Files.Reads.{get}
use smdr.Jobs.Stores.{layer_preview_primitives_key}

-- The arguments of `JOB_STORE.insert` that most submissions leave out.
abbrev pub new_job : String → JsonDict → Option String → Option String → NewJob
new_job kind payload version_id file_id = record {
  kind = kind;
  payload = payload;
  version_id = version_id;
  file_id = file_id;
  product_id = none;
  parent_id = none;
  total = none;
  done_count = none;
  status = queued;
  submitted_by = none;
}

abbrev pub json_text : Option String → Json
json_text none = Json.null
json_text (some t) = Json.str t

abbrev pub json_texts : List String → Items
json_texts [] = nil
json_texts (t ∷ ts) = cons (Json.str t) (json_texts ts)

unfoldable pub submit_discover_layers :
    String → ℕ → String → String → Option String → FileDb → Jobs → Option Jobs
submit_discover_layers job_id now version_id file_id layout_name files t =
    let layout : Option String = elim layout_name [
      | some l ↦ some l
      | none ↦ elim (get version_id file_id files) [
        | none ↦ none
        | some rec ↦ rec.binding.chosen_layout
      ]
    ] in
    insert job_id now
      (new_job "discover" (("layout_name", json_text layout) ∷ []) (some version_id) (some file_id))
      t

unfoldable pub submit_rule_check : String → ℕ → String → String → List String → Jobs → Option Jobs
submit_rule_check job_id now product_id version_id file_ids t =
    insert job_id now
      (record (new_job "rule_check" (("file_ids", Json.arr (json_texts file_ids)) ∷ [])
        (some version_id) none) { product_id = some product_id })
      t

unfoldable pub submit_save_match : String → ℕ → String → String → Jobs → Option Jobs
submit_save_match job_id now version_id file_id t =
    insert job_id now (new_job "save_match" [] (some version_id) (some file_id)) t

unfoldable pub find_inflight_preprocess_job : String → String → Jobs → Option String
find_inflight_preprocess_job version_id file_id t = find_inflight "preprocess" version_id file_id t

-- The payload of a preprocess job.
abbrev pub preprocess_payload : Json → Json → Json → Json → Json → Json → JsonDict
preprocess_payload library_id layers transient overrides unit layout =
    ("library_id", library_id)
    ∷ ("selected_layers", layers)
    ∷ ("transient", transient)
    ∷ ("dev_overrides", overrides)
    ∷ ("user_unit_override", unit)
    ∷ ("layout_name", layout)
    ∷ []

-- `x or None`, of an argument and of a column
abbrev or_else : Option String → Option String → Option String
or_else (some t) other = some t
or_else none other = other

module _ (overrides : Json) where
  unfoldable pub submit_preprocess :
      String
      → ℕ
      → String
      → String
      → String
      → Json
      → Option String
      → Option String
      → FileDb
      → Jobs
      → Option Jobs
  submit_preprocess job_id now version_id file_id library_id layers unit layout files t =
      let rec : Option FileRecord = get version_id file_id files in
      let unit' : Option String = elim rec [
        | none ↦ unit
        | some r ↦ or_else unit r.binding.user_unit_override
      ] in
      let layout' : Option String = elim rec [
        | none ↦ layout
        | some r ↦ or_else layout r.binding.chosen_layout
      ] in
      insert job_id now
        (new_job "preprocess"
          (preprocess_payload (Json.str library_id) layers
            (Json.str (layer_preview_primitives_key version_id file_id)) overrides (json_text unit')
            (json_text layout'))
          (some version_id) (some file_id))
        t
