-- ===== src/Jobs/Samples.antt =====
-- The jobs of app/jobs.py on one file that two versions share, one of them signed off.
use smdr.Versions.Methods.{get}
use smdr.JobStore.Queue.{insert}
use smdr.Prelude.{
  ℕ, String, Bool, ◌≡◌, refl, List, [], ◌∷◌, Option, some, none, true, false, ◌==◌, same,
  if◌then◌else◌, ◌+◌,
}
use smdr.Table.{delete, select, first}
use smdr.Json.{Json}
use smdr.Versions.Rows.{Db, Version, Binding}
use smdr.Files.Rows.{binding_of}
use smdr.Files.Reads.{list_all, latest_first, join_files, insert_latest}
use smdr.Files.Bindings.{Parse, new_binding, new_content}
use smdr.Jobs.Stores.{Stores, JobResult, returned, raised}
use smdr.Jobs.Effects.{apply_parse, parse_of}
use smdr.Jobs.Preprocessed.{Changes}
use smdr.Jobs.Rescale.{landed, apply_parse-landed}
use smdr.Jobs.StaleMatch.{stale_match_kept}
use smdr.Jobs.Reprocess.{
  parent_job, child_job, submit_reprocess_all, insert_children, scan_bindings, scan_binding, cached,
}
use smdr.Jobs.Expected.{expected_parent, expected_child}

abbrev saved : Binding
saved = record (new_binding "v1" "pcb" "h" none "ready_to_match" 2) { match_saved = true }

abbrev stores : Stores
stores = record {
  jobs = [];
  files = record {
    files = new_content "h" "board.dxf" 900 1 ∷ [];
    version_files = saved ∷ new_binding "v2" "pcb" "h" none "ready_to_match" 3 ∷ [];
  };
  blobs = "match/v1/h.json" ∷ "match/v2/h.json" ∷ [];
}

abbrev rescaled : Parse
rescaled = record {
  primitive_count = 7;
  bbox = (0, 0, 4, 4);
  background = "#000";
  insunits = some 4;
  applied_scale = 25;
}

abbrev result : JobResult
result = record {
  primitive_count = some 7;
  bbox = some (some (0, 0, 4, 4));
  background = some "#000";
  insunits = some 4;
  applied_scale = some 25;
  detector_factor = some 25;
  user_unit_override_requested = some "mm";
  dxf_recover_notes = none;
  source_layout = some "Layout1";
  source_is_paperspace = true;
  needs_layout_pick = false;
}

abbrev deletes : String → List String → Option (List String)
deletes k ks = some (delete (λ b. same b k) ks)

abbrev unreachable : String → List String → Option (List String)
unreachable k ks = none

abbrev equal : ℕ → ℕ → Bool
equal a b = a == b

parsed_result : parse_of result ≡ some rescaled
unfolding parse_of
parsed_result = refl

apply_parse-landed_example :
    (x : Stores) × (apply_parse equal deletes "v1" "h" rescaled result 9 stores ≡ returned x)
    × Changes "v1" "h"
        (landed equal deletes "v1" "h" rescaled result 9 stores false)
        stores.files
        x.files
    × (x.blobs ≡ "match/v2/h.json" ∷ [])
    × (x.jobs ≡ [])
unfolding first delete
apply_parse-landed_example =
    apply_parse-landed equal deletes "v1" "h" rescaled result 9 stores saved
      ("match/v2/h.json" ∷ []) refl refl

stale_match_kept_example :
    (w' : Stores) × (apply_parse equal unreachable "v1" "h" rescaled result 9 stores
      ≡ raised "delete failed" w')
    × ((x : Stores) × (apply_parse equal unreachable "v1" "h" rescaled result 10 w' ≡ returned x)
        × (x.blobs ≡ stores.blobs)
        × ((b' : Binding) × (binding_of "v1" "h" x.files ≡ some b')
            × (b'.match_saved ≡ true)
            × (b'.applied_scale ≡ 25)))
unfolding first
stale_match_kept_example =
    stale_match_kept equal unreachable "v1" "h" rescaled result 9 10 stores saved refl refl refl

abbrev v1 : Version
v1 = record {
  id = "v1";
  product_id = "p";
  label = "A";
  library_id = "l1";
  signed_off_by = none;
  signed_off_at = none;
  created_at = 10;
  evidence_name = none;
  evidence_type = none;
  check_dam = false;
}

abbrev db : Db
db = record {
  products = [];
  versions =
      v1 ∷ record v1 { id = "v2"; label = "B"; library_id = "l2"; signed_off_by = some "eve" } ∷ [];
  libraries = [];
  classes = [];
  templates = [];
  version_files = [];
}

abbrev ids : ℕ → String
ids n = if n == 0 then "c0" else "c1"

abbrev times : ℕ → ℕ
times n = n + 51

-- The signed-off version is skipped.
one_child :
    submit_reprocess_all Json.str Json.null "parent" ids 50 times "reprocess-all" db stores.files []
    ≡ (
      some "parent",
      expected_parent "parent" 50 "reprocess-all" db (list_all stores.files)
          ∷ expected_child Json.str Json.null "c0" 51 "parent" db
              (record { binding = saved; content = new_content "h" "board.dxf" 900 1 })
          ∷ [],
    )
unfolding submit_reprocess_all insert first insert_children scan_bindings list_all latest_first
    join_files insert_latest scan_binding cached get parent_job select child_job
one_child = refl

-- An id that is taken: the parent stays behind, without a child.
no_child :
    (submit_reprocess_all Json.str Json.null "parent"
      (λ n. "parent")
      50
      times
      "reprocess-all"
      db
      stores.files
      []).1
    ≡ expected_parent "parent" 50 "reprocess-all" db (list_all stores.files) ∷ []
unfolding submit_reprocess_all insert first insert_children scan_bindings list_all latest_first
    join_files insert_latest scan_binding cached get parent_job select
no_child = refl
