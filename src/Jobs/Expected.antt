-- ===== src/Jobs/Expected.antt =====
-- The rows that a reprocess-all (`submit_reprocess_all` of app/jobs.py) is to leave, in terms of the
-- bindings and versions alone.
use smdr.Prelude.{
  List, [], ◌∷◌, Bool, String, ℕ, ◌+◌, same, some, none, Option, not, ◌||◌, ◌&&◌, is_some, length,
  true, false, ◌++◌,
}
use smdr.Table.{select}
use smdr.Json.{Json, nil}
use smdr.Versions.Rows.{Db}
use smdr.Versions.Methods.{get as version_row}
use smdr.JobStore.Rows.{Job, Jobs, row_of, queued, running, done}
use smdr.Files.Rows.{FileRecord}

-- The library of a version that exists and that nobody has signed off.
abbrev pub live_library : Db → String → Option String
live_library db version_id = elim (version_row version_id db) [
  | none ↦ none
  | some v ↦ elim v.signed_off_by [ none ↦ some v.library_id | some _ ↦ none ]
]

-- Whether a binding is past the choice of its layers, without an error, on such a version.
abbrev pub is_reprocessed : Db → FileRecord → Bool
is_reprocessed db r =
    not (
      same r.binding.status "discovering_layers"
      || same r.binding.status "awaiting_layout"
      || same r.binding.status "awaiting_layers"
      || same r.binding.status "error")
    && is_some (live_library db r.binding.version_id)

abbrev text_or_null : Option String → Json
text_or_null o = elim o [ none ↦ Json.null | some t ↦ Json.str t ]

-- The parent of the bindings `rs`: it counts those that are reprocessed, and is done if there are none.
abbrev pub expected_parent : String → ℕ → String → Db → List FileRecord → Job
expected_parent parent_id now kind db rs = record {
  id = parent_id;
  kind = kind;
  status = elim (select (is_reprocessed db) rs) [ [] ↦ done | _ ∷ _ ↦ running ];
  version_id = none;
  file_id = none;
  product_id = none;
  parent_id = none;
  payload =
      ("skipped", Json.num (length (select (λ r. not (is_reprocessed db r)) rs)))
      ∷ ("errors", Json.arr nil)
      ∷ [];
  result = none;
  error_text = none;
  total = some (length (select (is_reprocessed db) rs));
  done_count = some 0;
  attempts = 0;
  submitted_by = none;
  submitted_at = now;
  started_at = none;
  completed_at = none;
  claimed_by = none;
  heartbeat_at = none;
}

module _ (loads : String → Json) (overrides : Json) where
  -- The queued preprocess job of one binding.
  abbrev pub expected_child : String → ℕ → String → Db → FileRecord → Job
  expected_child job_id now parent_id db r = record {
    id = job_id;
    kind = "preprocess";
    status = queued;
    version_id = some r.binding.version_id;
    file_id = some r.binding.file_id;
    product_id = none;
    parent_id = some parent_id;
    payload =
        ("library_id", text_or_null (live_library db r.binding.version_id))
        ∷ (
          "selected_layers",
          elim r.binding.selected_layers [ none ↦ Json.null | some t ↦ loads t ],
        )
        ∷ ("transient", Json.null)
        ∷ ("dev_overrides", overrides)
        ∷ ("user_unit_override", text_or_null r.binding.user_unit_override)
        ∷ ("layout_name", text_or_null r.binding.chosen_layout)
        ∷ [];
    result = none;
    error_text = none;
    total = none;
    done_count = none;
    attempts = 0;
    submitted_by = none;
    submitted_at = now;
    started_at = none;
    completed_at = none;
    claimed_by = none;
    heartbeat_at = none;
  }

  unfoldable pub expected_children :
      (ℕ → String) → (ℕ → ℕ) → ℕ → String → Db → List FileRecord → List Job
  expected_children ids times n parent_id db [] = []
  expected_children ids times n parent_id db (r ∷ rs) =
      expected_child (ids n) (times n) parent_id db r
      ∷ expected_children ids times (n + 1) parent_id db rs

-- The rows added one by one, each for good, up to the first whose id is taken; and whether all were.
unfoldable pub add_each : List Job → Jobs → Bool × Jobs
add_each [] t = (true, t)
add_each (j ∷ js) t = elim (row_of j.id t) [
  | none ↦ add_each js (t ++ j ∷ [])
  | some _ ↦ (false, t)
]
