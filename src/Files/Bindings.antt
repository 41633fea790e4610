-- ===== src/Files/Bindings.antt =====
-- The writes of app/files.py. `time.time()` is an argument.
use smdr.Prelude.{
  ℕ, String, Bool, false, ◌&&◌, not, Option, none, some, [], ◌∷◌, ◌++◌, same, ltb, ◌==◌,
}
use smdr.Table.{update, delete, count}
use smdr.Versions.Rows.{Binding, unparsed}
use smdr.Files.Rows.{Content, FileDb, is_binding, binding_of, content_of, ready}

-- ---- content rows
abbrev pub new_content : String → String → ℕ → ℕ → Content
new_content file_id name size now = record {
  id = file_id;
  name = name;
  size = size;
  uploaded_at = now;
  insunits = none;
  dxf_recover_notes = none;
}

-- INSERT OR IGNORE: the first name of the bytes stays.
unfoldable pub register_content : String → String → ℕ → ℕ → FileDb → FileDb
register_content file_id name size now s = elim (content_of file_id s) [
  | some _ ↦ s
  | none ↦ record s { files = s.files ++ new_content file_id name size now ∷ [] }
]

-- UPDATE files SET f WHERE id = ?
abbrev pub update_content : String → (Content → Content) → FileDb → FileDb
update_content file_id f s = record s { files = update (λ c. same c.id file_id) f s.files }

unfoldable pub set_insunits : String → Option ℕ → FileDb → FileDb
set_insunits file_id insunits s = update_content file_id (λ c. record c { insunits = insunits }) s

unfoldable pub set_dxf_recover_notes : String → Option String → FileDb → FileDb
set_dxf_recover_notes file_id notes s =
    update_content file_id (λ c. record c { dxf_recover_notes = notes }) s

-- ---- bindings
-- The row that `bind` inserts: the columns that it does not name have their defaults.
abbrev pub new_binding : String → String → String → Option String → String → ℕ → Binding
new_binding version_id role file_id dxf_view initial_status now = record {
  version_id = version_id;
  role = role;
  file_id = file_id;
  dxf_view = dxf_view;
  status = initial_status;
  error = none;
  match_saved = false;
  selected_layers = none;
  top_view_rect = none;
  bottom_view_rect = none;
  side_view_rect = none;
  applied_scale = 1;
  user_unit_override = none;
  chosen_layout = none;
  parsed = unparsed;
  created_at = now;
}

-- INSERT OR REPLACE, and the read of the new row. `none` is the IntegrityError of a file that is not in
-- `files`.
unfoldable pub bind : String → String → String → Option String → String → ℕ → FileDb → Option FileDb
bind version_id role file_id dxf_view initial_status now s = elim (content_of file_id s) [
  | none ↦ none
  | some c ↦ some (record s {
    version_files =
        delete (is_binding version_id file_id) s.version_files
        ++ new_binding version_id role file_id dxf_view initial_status now ∷ [];
  })
]

unfoldable pub unbind : String → String → FileDb → Bool × FileDb
unbind version_id file_id s = (
  ltb 0 (count (is_binding version_id file_id) s.version_files),
  record s { version_files = delete (is_binding version_id file_id) s.version_files },
)

abbrev pub is_in_role : String → String → Binding → Bool
is_in_role version_id role b = same b.version_id version_id && same b.role role

unfoldable pub unbind_role : String → String → FileDb → ℕ × FileDb
unbind_role version_id role s = (
  count (is_in_role version_id role) s.version_files,
  record s { version_files = delete (is_in_role version_id role) s.version_files },
)

-- UPDATE version_files SET f WHERE version_id = ? AND file_id = ?
abbrev pub update_binding : String → String → (Binding → Binding) → FileDb → FileDb
update_binding version_id file_id f s = record s {
  version_files = update (is_binding version_id file_id) f s.version_files;
}

unfoldable pub update_selected_layers : String → String → String → FileDb → FileDb
update_selected_layers version_id file_id layers s =
    update_binding version_id file_id (λ b. record b { selected_layers = some layers }) s

unfoldable pub clear_selected_layers : String → String → FileDb → FileDb
clear_selected_layers version_id file_id s =
    update_binding version_id file_id (λ b. record b { selected_layers = none }) s

-- An empty dict counts as None.
unfoldable pub update_side_regions :
    String → String → Option String → Option String → Option String → FileDb → FileDb
update_side_regions version_id file_id top bottom side s =
    update_binding version_id file_id
      (λ b. record b { top_view_rect = top; bottom_view_rect = bottom; side_view_rect = side }) s

unfoldable pub clear_side_regions : String → String → FileDb → FileDb
clear_side_regions version_id file_id s =
    update_binding version_id file_id
      (λ b. record b { top_view_rect = none; bottom_view_rect = none; side_view_rect = none }) s

unfoldable pub set_user_unit_override : String → String → Option String → FileDb → FileDb
set_user_unit_override version_id file_id unit s =
    update_binding version_id file_id (λ b. record b { user_unit_override = unit }) s

unfoldable pub set_chosen_layout : String → String → Option String → FileDb → FileDb
set_chosen_layout version_id file_id layout s =
    update_binding version_id file_id (λ b. record b { chosen_layout = layout }) s

unfoldable pub set_match_saved : String → String → Bool → FileDb → FileDb
set_match_saved version_id file_id value s =
    update_binding version_id file_id (λ b. record b { match_saved = value }) s

unfoldable pub update_status : String → String → String → Option String → FileDb → FileDb
update_status version_id file_id status error s =
    update_binding version_id file_id (λ b. record b { status = status; error = error }) s

-- The arguments of `update_parsed`.
pub record Parse : Type 0 where
  pub primitive_count : ℕ
  pub bbox : ℕ × ℕ × ℕ × ℕ
  pub background : String
  pub insunits : Option ℕ
  pub applied_scale : ℕ

abbrev pub parsed_binding : Parse → ℕ → Binding → Binding
parsed_binding p now b = record b {
  status = ready;
  error = none;
  applied_scale = p.applied_scale;
  parsed = record {
    parsed_at = some now;
    primitive_count = some p.primitive_count;
    bbox_xmin = some p.bbox.0;
    bbox_ymin = some p.bbox.1;
    bbox_xmax = some p.bbox.2;
    bbox_ymax = some p.bbox.3;
    background = some p.background;
  };
}

-- Both UPDATEs, and whether the scale changed; a binding that is not there had the scale 1.0.
unfoldable pub update_parsed : String → String → Parse → ℕ → FileDb → Bool × FileDb
update_parsed version_id file_id p now s =
    let prior : ℕ = elim (binding_of version_id file_id s) [
      | none ↦ 1
      | some b ↦ b.applied_scale
    ] in
    (
      not (prior == p.applied_scale),
      update_content file_id (λ c. record c { insunits = p.insunits })
          (update_binding version_id file_id (parsed_binding p now) s),
    )
