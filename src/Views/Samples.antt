-- ===== src/Views/Samples.antt =====
-- The resolution of views by app/product_views.py on two files.
use smdr.Versions.Rows.{Binding, unparsed}
use smdr.Json.{Json, Fields, num, obj, arr, cons, nil, field, end}
use smdr.Views.{
  FileViews, file_views, decode_rect, rect_of, coordinate, value_of, bottom, conflict,
  resolve_views, claim, scan_row, scan_rows,
}
use smdr.Views.Laws.{ResolvesTo, resolve_views_lem}
use smdr.Prelude.{
  if◌then◌else◌, some, none, [], ◌∷◌, false, refl, ◌≡◌, ℕ, List, Option, String, ◌+◌, same,
}

-- A file with two regions, and a text for the third that is no object
abbrev regions : Binding
regions = record {
  version_id = "v1";
  role = "LID";
  file_id = "f1";
  dxf_view = none;
  status = "ready";
  error = none;
  match_saved = false;
  selected_layers = none;
  top_view_rect = some "r1";
  bottom_view_rect = some "r2";
  side_view_rect = some "[2, 0, 3, 1]";
  applied_scale = 1;
  user_unit_override = none;
  chosen_layout = none;
  parsed = unparsed;
  created_at = 1;
}

-- and one that is a bottom view as a whole
abbrev whole : Binding
whole = record regions {
  file_id = "f2";
  dxf_view = some "bottom";
  top_view_rect = none;
  bottom_view_rect = none;
  side_view_rect = none;
}

-- Of the texts of the columns: two objects with coordinates, and an array.
abbrev corners : ℕ → Fields
corners n =
    field "x0" (num n) (field "y0" (num 0) (field "x1" (num (n + 1)) (field "y1" (num 1) end)))

abbrev loads : String → Option Json
loads text =
    if same text "r1"
    then some (obj (corners 0))
    else if same text "r2"
    then some (obj (corners 2))
    else if same text "[2, 0, 3, 1]"
    then some (arr (cons (num 2) (cons (num 0) (cons (num 3) (cons (num 1) nil)))))
    else none

abbrev float : Json → Option ℕ
float (num n) = some n
float _ = none

abbrev rows : List (FileViews ℕ)
rows = file_views loads float regions ∷ file_views loads float whole ∷ []

-- An array is no rect.
regions_decoded : file_views loads float regions ≡ record {
  file_id = "f1";
  dxf_view = none;
  top_view_rect = some (record { x0 = 0; y0 = 0; x1 = 1; y1 = 1 });
  bottom_view_rect = some (record { x0 = 2; y0 = 0; x1 = 3; y1 = 1 });
  side_view_rect = none;
}
unfolding file_views decode_rect rect_of coordinate value_of
regions_decoded = refl

rows_clash : resolve_views rows ≡ conflict bottom ("f1" ∷ "f2" ∷ [])
unfolding resolve_views scan_rows scan_row claim file_views decode_rect rect_of coordinate value_of
rows_clash = refl

resolve_views_lem_example : ResolvesTo rows (resolve_views rows)
resolve_views_lem_example = resolve_views_lem rows
