-- ===== src/Jobs/Reprocess.antt =====
-- The unit override and the reprocess-all of app/jobs.py.
use smdr.Prelude.{
  ℕ, ◌+◌, String, Bool, true, false, ◌||◌, Option, none, some, List, [], ◌∷◌, same, length,
  if◌then◌else◌, ◌++◌,
}
use smdr.Json.{Json, nil}
use smdr.Versions.Rows.{Db, is_signed_off}
use smdr.JobStore.Rows.{Jobs, NewJob, running, done}
use smdr.JobStore.Queue.{insert}
use smdr.Files.Rows.{
  FileDb, FileRecord, discovering_layers, awaiting_layout, awaiting_layers, preprocessing,
  error_status,
}
use smdr.Files.Bindings.{set_user_unit_override, update_status}
use smdr.Files.Reads.{get, list_all}
use smdr.Jobs.Stores.{Stores}
use smdr.Versions.Methods.{get as version_row}
use smdr.Jobs.Submit.{new_job, preprocess_payload, submit_preprocess, json_text}

-- _library_of_version: `none` is the KeyError.
unfoldable pub library_of_version : String → Db → Option String
library_of_version version_id db = elim (version_row version_id db) [
  | none ↦ none
  | some v ↦ some v.library_id
]

-- ---- the scan of submit_reprocess_all
abbrev pub is_skipped_status : String → Bool
is_skipped_status status =
    same status discovering_layers
    || same status awaiting_layout
    || same status awaiting_layers
    || same status error_status

-- The library of a version whose results may change.
abbrev pub open_library : Db → String → Option String
open_library db version_id = elim (version_row version_id db) [
  | none ↦ none
  | some v ↦ if is_signed_off v then none else some v.library_id
]

-- A dict from versions to libraries or None
abbrev pub Cache : Type 0
Cache = List (String × Option String)

unfoldable pub cached : String → Cache → Option (Option String)
cached v [] = none
cached v ((w, l) ∷ c) = if same w v then some l else cached v c

pub record Scan : Type 0 where
  pub eligible : List FileRecord
  pub skipped : ℕ
  pub lib_by_version : Cache

abbrev pub skip : Scan → Scan
skip s = record s { skipped = s.skipped + 1 }

abbrev pub with_library : FileRecord → Option String → Scan → Scan
with_library r library s = elim library [
  | none ↦ skip s
  | some _ ↦ record s { eligible = s.eligible ++ r ∷ [] }
]

unfoldable pub scan_binding : Db → FileRecord → Scan → Scan
scan_binding db r s =
    let v = r.binding.version_id in
    if is_skipped_status r.binding.status then skip s else elim (cached v s.lib_by_version) [
      | some library ↦ with_library r library s
      | none ↦
          with_library r (open_library db v)
            (record s { lib_by_version = (v, open_library db v) ∷ s.lib_by_version })
    ]

unfoldable pub scan_bindings : Db → List FileRecord → Scan → Scan
scan_bindings db [] s = s
scan_bindings db (r ∷ rs) s = scan_bindings db rs (scan_binding db r s)

abbrev pub empty_scan : Scan
empty_scan = record { eligible = []; skipped = 0; lib_by_version = [] }

-- ---- the jobs
unfoldable pub parent_job : String → Scan → NewJob
parent_job kind s =
    record (new_job kind (("skipped", Json.num s.skipped) ∷ ("errors", Json.arr nil) ∷ []) none
      none) {
        total = some (length s.eligible);
        done_count = some 0;
        status = elim s.eligible [ [] ↦ done | _ ∷ _ ↦ running ];
      }

module _ (loads : String → Json) (overrides : Json) where
  -- The column `selected_layers` as the record has it
  abbrev pub layers_of : Option String → Json
  layers_of none = Json.null
  layers_of (some t) = loads t

  unfoldable pub child_job : String → FileRecord → Option (Option String) → NewJob
  child_job parent_id r library =
      let b = r.binding in
      record (new_job "preprocess"
        (preprocess_payload (json_text (elim library [ none ↦ none | some l ↦ l ]))
          (layers_of b.selected_layers) Json.null overrides (json_text b.user_unit_override)
          (json_text b.chosen_layout))
        (some b.version_id) (some b.file_id)) { parent_id = some parent_id }

  -- The children, with ids and times of two sequences from their `n`th on. Each INSERT is a transaction
  -- of its own: when one raises (`false`), those before it stay.
  unfoldable pub insert_children :
      (ℕ → String) → (ℕ → ℕ) → ℕ → String → Cache → List FileRecord → Jobs → Bool × Jobs
  insert_children ids times n parent_id c [] t = (true, t)
  insert_children ids times n parent_id c (r ∷ rs) t =
      elim (insert (ids n) (times n) (child_job parent_id r (cached r.binding.version_id c)) t) [
        | none ↦ (false, t)
        | some t' ↦ insert_children ids times (n + 1) parent_id c rs t'
      ]

  -- The parent's id, or `none` when an INSERT raises, and the table that is left.
  unfoldable pub submit_reprocess_all :
      String → (ℕ → String) → ℕ → (ℕ → ℕ) → String → Db → FileDb → Jobs → Option String × Jobs
  submit_reprocess_all parent_id ids now times kind db files t =
      let s : Scan = scan_bindings db (list_all files) empty_scan in
      elim (insert parent_id now (parent_job kind s) t) [
        | none ↦ (none, t)
        | some t' ↦
            let children = insert_children ids times 0 parent_id s.lib_by_version s.eligible t' in
            (if children.0 then some parent_id else none, children.1)
      ]

  -- The binding is written before the version is looked up; `none` is a KeyError or an IntegrityError.
  unfoldable pub submit_unit_override_preprocess :
      String → ℕ → String → String → String → Db → Stores → Option String × Stores
  submit_unit_override_preprocess job_id now version_id file_id unit db w =
      elim (get version_id file_id w.files) [
        | none ↦ (none, w)
        | some rec ↦
            let files : FileDb =
              update_status version_id file_id preprocessing none
                (set_user_unit_override version_id file_id (some unit) w.files) in
            let w' : Stores = record w { files = files } in
            elim (library_of_version version_id db) [
              | none ↦ (none, w')
              | some library_id ↦
                  elim (submit_preprocess overrides job_id now version_id file_id library_id
                    (layers_of rec.binding.selected_layers) (some unit) rec.binding.chosen_layout
                    files w.jobs) [
                      | none ↦ (none, w')
                      | some t ↦ (some job_id, record w' { jobs = t })
                    ]
            ]
      ]
