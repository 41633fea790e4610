-- ===== src/Files/Samples.antt =====
-- The writes of app/files.py on a table with one file, which two versions share.
use smdr.Files.Reads.{binding_count, list_all, latest_first, join_files, insert_latest}
use smdr.Table.{first, count, delete, update}
use smdr.Prelude.{◌≡◌, refl, List, [], ◌∷◌, some, none, true}
use smdr.Files.Rows.{FileDb}
use smdr.Files.Bindings.{
  Parse, new_binding, new_content, update_parsed, unbind_role, bind, update_selected_layers,
}
use smdr.Files.Calls.{FileCall, perform, perform_all, steps, view}
use smdr.Files.Runs.{IsBound, perform_all-steps}

abbrev shared_file : FileDb
shared_file = record {
  files = new_content "h" "board.dxf" 900 1 ∷ [];
  version_files =
      new_binding "v1" "pcb" "h" none "discovering_layers" 2
      ∷ new_binding "v2" "pcb" "h" none "ready_to_match" 3
      ∷ [];
}

abbrev parse : Parse
parse = record {
  primitive_count = 7;
  bbox = (0, 0, 4, 4);
  background = "#000";
  insunits = some 4;
  applied_scale = 25;
}

abbrev preprocess : List FileCall
preprocess =
    FileCall.selects_layers "v1" "h" "[]"
    ∷ FileCall.sets_parsed "v1" "h" parse 5
    ∷ FileCall.binds "v1" "pcb" "nothing" none "error" 6
    ∷ FileCall.binds "v1" "pkg" "h" none "discovering_layers" 7
    ∷ FileCall.unbinds_role "v2" "pcb"
    ∷ []

rescaled : (update_parsed "v1" "h" parse 5 shared_file).0 ≡ true
unfolding update_parsed first
rescaled = refl

replaced : binding_count "h" (perform_all preprocess shared_file) ≡ 1
unfolding binding_count count perform_all perform unbind_role delete bind first update_parsed update
    update_selected_layers
replaced = refl

bound_once : count (λ _. true) (list_all shared_file) ≡ 2
unfolding count list_all latest_first join_files first insert_latest
bound_once = refl

perform_all-steps_example :
    (view (perform_all preprocess shared_file) ≡ steps preprocess (view shared_file))
    × IsBound (perform_all preprocess shared_file)
unfolding first
perform_all-steps_example = perform_all-steps preprocess shared_file (refl, (refl, tt))
