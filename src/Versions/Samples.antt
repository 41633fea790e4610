-- ===== src/Versions/Samples.antt =====
-- The methods of app/versions.py on a product with two versions.
use smdr.Versions.Clones.{create_clone-copies, ClonesRows, KeepsRows}
use smdr.Versions.Freeze.{run_versions-frozen}
use smdr.Versions.Distinct.{run_versions-IsDistinct}
use smdr.Table.{first}
use smdr.Versions.Methods.{get, sign_off, unsign, set_check_dam}
use smdr.Versions.Creation.{
  create_product, create_first, create_clone, insert_version, copy_rows, with_classes,
  with_templates, with_bindings, copied_templates,
}
use smdr.Prelude.{strip}
use smdr.Table.{update, count, insert_rows, select}
use smdr.Versions.Labels.{IsDistinct}
use smdr.Prelude.{◌∷◌, some, none, ◌≡◌, [], List, false, true, refl}
use smdr.Versions.Rows.{Db, Version, ok, ClassRow, Binding, TemplateRow, unparsed}
use smdr.Versions.Runs.{
  VersionCall, add_product, add_first, add_clone, freeze, withdraw, flag_dam, run_versions,
  perform_version,
}

abbrev empty_db : Db
empty_db = record {
  products = [];
  versions = [];
  libraries = [];
  classes = [];
  templates = [];
  version_files = [];
}

abbrev v1 : Version
v1 = record {
  id = "v1";
  product_id = "p";
  label = "A";
  library_id = "l1";
  signed_off_by = some "eve";
  signed_off_at = some 20;
  created_at = 10;
  evidence_name = none;
  evidence_type = none;
  check_dam = false;
}

abbrev v2 : Version
v2 = record v1 {
  id = "v2";
  label = "B";
  library_id = "l2";
  signed_off_by = none;
  signed_off_at = none;
  created_at = 30;
}

abbrev signed_db : Db
signed_db = record empty_db { versions = v1 ∷ [] }

abbrev first_calls : List VersionCall
first_calls =
    add_product "p" "v1" "l1" 10 "lid" " A " ""
    ∷ add_first "v9" "l9" 11 "p" "A"
    ∷ freeze "v1" "eve" 20 none none
    ∷ []

-- The second call meets the label that is taken.
first_calls_run : (run_versions first_calls empty_db).versions ≡ v1 ∷ []
unfolding run_versions perform_version sign_off first create_first insert_version strip
    create_product update
first_calls_run = refl

run_versions-IsDistinct_example : IsDistinct (run_versions first_calls empty_db).versions
run_versions-IsDistinct_example = run_versions-IsDistinct first_calls empty_db tt

abbrev later_calls : List VersionCall
later_calls =
    flag_dam "v1" true
    ∷ add_clone "v2" "l2" (λ n. "t") 30 31 "p" "B" v1
    ∷ freeze "v1" "mallory" 40 none none
    ∷ withdraw "v2"
    ∷ []

later_calls_run : (run_versions later_calls signed_db).versions ≡ v1 ∷ v2 ∷ []
unfolding run_versions perform_version unsign count sign_off first create_clone insert_version strip
    set_check_dam copy_rows with_classes insert_rows select with_templates copied_templates
    with_bindings update
later_calls_run = refl

run_versions-frozen_example : get "v1" (run_versions later_calls signed_db) ≡ some v1
unfolding get first
run_versions-frozen_example =
    run_versions-frozen v1 "eve" refl later_calls signed_db (tt, (tt, (tt, (refl, tt)))) (refl, tt)
      refl

abbrev class_row : ClassRow
class_row = record {
  library_id = "l1";
  name = "bolt";
  rank = 0;
  created_at = 12;
  match_strategy = "shape";
  bbox_ratio = none;
}

abbrev template_row : TemplateRow
template_row = record {
  id = "t1";
  library_id = "l1";
  class_name = "bolt";
  entity_point_sets = "[]";
  centroid = (0, 0);
  bbox = (0, 0, 1, 1);
  created_at = 13;
  entity_kinds = none;
}

abbrev binding_row : Binding
binding_row = record {
  version_id = "v1";
  role = "LID";
  file_id = "f1";
  dxf_view = none;
  status = "ready";
  error = none;
  match_saved = true;
  selected_layers = some "[]";
  top_view_rect = none;
  bottom_view_rect = none;
  side_view_rect = none;
  applied_scale = 1;
  user_unit_override = none;
  chosen_layout = none;
  parsed = record unparsed { parsed_at = some 14 };
  created_at = 14;
}

abbrev clone_db : Db
clone_db = record signed_db {
  libraries = record { id = "l1"; name = "version:v1"; created_at = 10 } ∷ [];
  classes = class_row ∷ [];
  templates = template_row ∷ [];
  version_files = binding_row ∷ [];
}

abbrev cloned_db : Db
cloned_db = record clone_db {
  versions = v1 ∷ v2 ∷ [];
  libraries =
      record { id = "l1"; name = "version:v1"; created_at = 10 }
      ∷ record { id = "l2"; name = "version:v2"; created_at = 30 }
      ∷ [];
  classes = class_row ∷ record class_row { library_id = "l2" } ∷ [];
  templates = template_row ∷ record template_row { id = "t"; library_id = "l2" } ∷ [];
  version_files =
      binding_row
      ∷ record binding_row {
        version_id = "v2";
        status = "preprocessing";
        match_saved = false;
        parsed = unparsed;
        created_at = 31;
      }
      ∷ [];
}

clone_runs : create_clone "v2" "l2" (λ n. "t") 30 31 "p" "B" v1 clone_db ≡ ok v2 cloned_db
unfolding create_clone insert_version strip first copy_rows with_classes insert_rows select
    with_templates copied_templates with_bindings
clone_runs = refl

create_clone-copies_example :
    ClonesRows v1 v2 31 clone_db cloned_db × KeepsRows v1 clone_db cloned_db
unfolding get first
create_clone-copies_example =
    create_clone-copies "v2" "l2" (λ n. "t") 30 31 "p" "B" v1 clone_db v2 cloned_db
      ((refl, tt), (refl, tt), (refl, tt)) refl clone_runs
