-- ===== src/Jobs/Effects.antt =====
-- What the end of a job does, by `apply_success` and `apply_failure` of app/jobs.py. The blob store's delete,
-- the test `abs(a - b) < 1e-12` and the text of a traceback are parameters. Jobs of the kinds that write
-- bindings carry a version and a file.
use smdr.Prelude.{
  ℕ, String, Bool, true, false, ◌||◌, not, Option, none, some, List, same, concat, coalesce,
  if◌then◌else◌,
}
use smdr.Json.{Json, end, field}
use smdr.JobStore.Rows.{Job}
use smdr.JobStore.Lifecycle.{append_parent_error, bump_parent_done}
use smdr.Files.Rows.{FileDb, awaiting_layout, awaiting_layers, error_status}
use smdr.Files.Bindings.{
  Parse, update_parsed, set_dxf_recover_notes, set_chosen_layout, set_match_saved,
  set_user_unit_override, update_status,
}
use smdr.Jobs.Stores.{Stores, JobResult, Ran, returned, raised, match_key, truthy}

unfoldable pub persist_source_layout : String → String → JobResult → FileDb → FileDb
persist_source_layout version_id file_id r s =
    if not r.source_is_paperspace then s else elim (truthy r.source_layout) [
      | none ↦ s
      | some layout ↦ set_chosen_layout version_id file_id (some layout) s
    ]

-- The arguments of `update_parsed`: `none` is a KeyError.
unfoldable pub parse_of : JobResult → Option Parse
parse_of r = elim r.primitive_count [
  | none ↦ none
  | some n ↦ elim r.bbox [
    | none ↦ none
    | some box ↦ elim r.background [
      | none ↦ none
      | some colour ↦ some (record {
        primitive_count = n;
        bbox = coalesce box (0, 0, 0, 0);
        background = colour;
        insunits = r.insunits;
        applied_scale = coalesce r.applied_scale 1;
      })
    ]
  ]
]

module _ (is_close : ℕ → ℕ → Bool) where
  -- Whether the override that the job ran with is what the detector chooses.
  abbrev pub is_redundant : JobResult → Bool
  is_redundant r = elim (truthy r.user_unit_override_requested) [
    | none ↦ false
    | some unit ↦ elim r.detector_factor [
      | none ↦ false
      | some factor ↦ is_close factor (coalesce r.applied_scale 1)
    ]
  ]

  unfoldable pub maybe_clear_redundant_unit_override : String → String → JobResult → FileDb → FileDb
  maybe_clear_redundant_unit_override version_id file_id r s =
      if is_redundant r then set_user_unit_override version_id file_id none s else s

abbrev pub with_ids : Job → (String → String → Ran) → Stores → Ran
with_ids job f w = elim job.version_id [
  | none ↦ returned w
  | some v ↦ elim job.file_id [ none ↦ returned w | some i ↦ f v i ]
]

module _ (is_close : ℕ → ℕ → Bool) (delete_blob : String → List String → Option (List String)) where
  -- The delete comes first; `none` is what it raises.
  unfoldable pub invalidate_match_after_rescale : String → String → Stores → Option Stores
  invalidate_match_after_rescale version_id file_id w =
      elim (delete_blob (match_key version_id file_id) w.blobs) [
        | none ↦ none
        | some blobs ↦
            some
              (record w { blobs = blobs; files = set_match_saved version_id file_id false w.files })
      ]

  -- _apply_preprocess_result, with the arguments of `update_parsed`.
  unfoldable pub apply_parse : String → String → Parse → JobResult → ℕ → Stores → Ran
  apply_parse version_id file_id p r now w =
      let (factor_changed, files) = update_parsed version_id file_id p now w.files in
      let w' : Stores = record w {
        files =
            persist_source_layout version_id file_id r
              (set_dxf_recover_notes file_id r.dxf_recover_notes files);
      } in
      let clear : Stores → Stores = λ x. record x {
        files = maybe_clear_redundant_unit_override is_close version_id file_id r x.files;
      } in
      if factor_changed
      then elim (invalidate_match_after_rescale version_id file_id w') [
        | none ↦ raised "delete failed" w'
        | some x ↦ returned (clear x)
      ]
      else returned (clear w')

  unfoldable pub apply_preprocess_result : String → String → JobResult → ℕ → Stores → Ran
  apply_preprocess_result version_id file_id r now w = elim (parse_of r) [
    | none ↦ raised "missing key" w
    | some p ↦ apply_parse version_id file_id p r now w
  ]

  -- The `try` of `apply_success`.
  unfoldable pub store_effects : Job → JobResult → ℕ → Stores → Ran
  store_effects job r now w =
      if same job.kind "preprocess"
      then with_ids job (λ v i. apply_preprocess_result v i r now w) w
      else if same job.kind "discover"
      then with_ids job
          (λ v i. returned (record w {
            files =
                update_status v i (if r.needs_layout_pick then awaiting_layout else awaiting_layers)
                  none w.files;
          }))
          w
      else if same job.kind "save_match"
      then with_ids job (λ v i. returned (record w { files = set_match_saved v i true w.files })) w
      else returned w

-- An id as JSON: None is null.
abbrev json_id : Option String → Json
json_id none = Json.null
json_id (some t) = Json.str t

abbrev pub error_entry : Job → String → Json
error_entry job message = Json.obj (
    field "version_id" (json_id job.version_id)
      (field "file_id" (json_id job.file_id) (field "error" (Json.str message) end)))

abbrev pub bumped : String → ℕ → Stores → Stores
bumped parent_id now w = record w { jobs = (bump_parent_done parent_id now w.jobs).1 }

-- The errors of a child, and the bump; `none`: `append_parent_error` raises.
unfoldable pub report_to_parent : Job → String → ℕ → Stores → Option Stores
report_to_parent job message now w = elim (truthy job.parent_id) [
  | none ↦ some w
  | some parent_id ↦ elim (append_parent_error parent_id (error_entry job message) w.jobs) [
    | none ↦ none
    | some jobs ↦ some (bumped parent_id now (record w { jobs = jobs }))
  ]
]

-- f"{e}\n{tb}"
abbrev pub with_traceback : String → String → String
with_traceback message tb = concat message (concat "\n" tb)

-- The result of `apply_success`, with what is then stored; an exception that leaves it.
pub data Applied : Type 0 where
  applied : Option String → Stores → Applied
  escaped : Stores → Applied

module _ (is_close : ℕ → ℕ → Bool) (delete_blob : String → List String → Option (List String)) where
  unfoldable pub apply_success : Job → JobResult → String → ℕ → Stores → Applied
  apply_success job r tb now w = elim (store_effects is_close delete_blob job r now w) [
    | raised message w' ↦ elim (report_to_parent job message now w') [
      | none ↦ escaped w'
      | some x ↦ applied (some (with_traceback message tb)) x
    ]
    | returned w' ↦ elim (truthy job.parent_id) [
      | none ↦ applied none w'
      | some parent_id ↦ applied none (bumped parent_id now w')
    ]
  ]

abbrev pub failed_files : Job → String → FileDb → FileDb
failed_files job message s =
    if same job.kind "preprocess" || same job.kind "discover"
    then elim job.version_id [
      | none ↦ s
      | some v ↦ elim job.file_id [
        | none ↦ s
        | some i ↦ update_status v i error_status (some message) s
      ]
    ]
    else s

-- Whether it returns, and what is then stored.
unfoldable pub apply_failure : Job → String → String → ℕ → Stores → Bool × Stores
apply_failure job message tb now w =
    let w' : Stores = record w { files = failed_files job (with_traceback message tb) w.files } in
    elim (report_to_parent job message now w') [ none ↦ (false, w') | some x ↦ (true, x) ]
