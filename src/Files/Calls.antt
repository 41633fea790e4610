-- ===== src/Files/Calls.antt =====
-- The writes of app/files.py as calls, and what each does to the two maps that the tables stand for: the
-- content of a hash, and the binding of a version and a hash.
use smdr.Versions.Rows.{Binding}
use smdr.Prelude.{ℕ, String, Bool, ◌&&◌, Option, none, some, List, [], ◌∷◌, same, if◌then◌else◌}
use smdr.Files.Rows.{Content, FileDb, binding_of, content_of}
use smdr.Files.Bindings.{
  Parse, new_binding, parsed_binding, register_content, set_insunits, set_dxf_recover_notes, bind,
  unbind, unbind_role, update_selected_layers, clear_selected_layers, update_side_regions,
  clear_side_regions, set_user_unit_override, set_chosen_layout, set_match_saved, update_status,
  update_parsed, new_content,
}

pub data FileCall : Type 0 where
  registers : String → String → ℕ → ℕ → FileCall
  sets_insunits : String → Option ℕ → FileCall
  sets_notes : String → Option String → FileCall
  binds : String → String → String → Option String → String → ℕ → FileCall
  unbinds : String → String → FileCall
  unbinds_role : String → String → FileCall
  selects_layers : String → String → String → FileCall
  clears_layers : String → String → FileCall
  sets_regions : String → String → Option String → Option String → Option String → FileCall
  clears_regions : String → String → FileCall
  sets_unit : String → String → Option String → FileCall
  sets_layout : String → String → Option String → FileCall
  sets_match_saved : String → String → Bool → FileCall
  sets_status : String → String → String → Option String → FileCall
  sets_parsed : String → String → Parse → ℕ → FileCall

-- The tables after a call; a call that raises leaves them as they were.
unfoldable pub perform : FileCall → FileDb → FileDb
perform (registers i name size now) s = register_content i name size now s
perform (sets_insunits i u) s = set_insunits i u s
perform (sets_notes i n) s = set_dxf_recover_notes i n s
perform (binds v r i x st now) s = elim (bind v r i x st now s) [ none ↦ s | some s' ↦ s' ]
perform (unbinds v i) s = (unbind v i s).1
perform (unbinds_role v r) s = (unbind_role v r s).1
perform (selects_layers v i l) s = update_selected_layers v i l s
perform (clears_layers v i) s = clear_selected_layers v i s
perform (sets_regions v i a b c) s = update_side_regions v i a b c s
perform (clears_regions v i) s = clear_side_regions v i s
perform (sets_unit v i u) s = set_user_unit_override v i u s
perform (sets_layout v i l) s = set_chosen_layout v i l s
perform (sets_match_saved v i b) s = set_match_saved v i b s
perform (sets_status v i st e) s = update_status v i st e s
perform (sets_parsed v i p now) s = (update_parsed v i p now s).1

unfoldable pub perform_all : List FileCall → FileDb → FileDb
perform_all [] s = s
perform_all (c ∷ cs) s = perform_all cs (perform c s)

-- ---- the maps
pub record FileView : Type 0 where
  pub content : String → Option Content
  pub binding : String → String → Option Binding

abbrev pub view : FileDb → FileView
view s = record { content = λ i. content_of i s; binding = λ v i. binding_of v i s }

-- The value of one key is changed.
abbrev pub alter_content : String → (Option Content → Option Content) → FileView → FileView
alter_content i f w = record w { content = λ j. if same i j then f (w.content j) else w.content j }

abbrev pub alter_binding : String → String → (Option Binding → Option Binding) → FileView → FileView
alter_binding v i f w = record w {
  binding = λ u j. if same v u && same i j then f (w.binding u j) else w.binding u j;
}

abbrev pub mapped : {A : Type 0} → (A → A) → Option A → Option A
mapped f a = elim a [ none ↦ none | some b ↦ some (f b) ]

abbrev pub registered : String → String → ℕ → ℕ → Option Content → Option Content
registered i name size now c = elim c [
  | none ↦ some (new_content i name size now)
  | some d ↦ some d
]

unfoldable pub step : FileCall → FileView → FileView
step (registers i name size now) w = alter_content i (registered i name size now) w
step (sets_insunits i u) w = alter_content i (mapped (λ c. record c { insunits = u })) w
step (sets_notes i n) w = alter_content i (mapped (λ c. record c { dxf_recover_notes = n })) w
step (binds v r i x st now) w = elim (w.content i) [
  | none ↦ w
  | some _ ↦ alter_binding v i (λ _. some (new_binding v r i x st now)) w
]
step (unbinds v i) w = alter_binding v i (λ _. none) w
step (unbinds_role v r) w = record w {
  binding = λ u j. elim (w.binding u j) [
    | none ↦ none
    | some b ↦ if same u v && same b.role r then none else some b
  ];
}
step (selects_layers v i l) w =
    alter_binding v i (mapped (λ b. record b { selected_layers = some l })) w
step (clears_layers v i) w = alter_binding v i (mapped (λ b. record b { selected_layers = none })) w
step (sets_regions v i x y z) w =
    alter_binding v i
      (mapped (λ b. record b { top_view_rect = x; bottom_view_rect = y; side_view_rect = z })) w
step (clears_regions v i) w =
    alter_binding v i
      (mapped
        (λ b. record b { top_view_rect = none; bottom_view_rect = none; side_view_rect = none }))
      w
step (sets_unit v i u) w = alter_binding v i (mapped (λ b. record b { user_unit_override = u })) w
step (sets_layout v i l) w = alter_binding v i (mapped (λ b. record b { chosen_layout = l })) w
step (sets_match_saved v i m) w = alter_binding v i (mapped (λ b. record b { match_saved = m })) w
step (sets_status v i st e) w =
    alter_binding v i (mapped (λ b. record b { status = st; error = e })) w
step (sets_parsed v i p now) w =
    alter_content i (mapped (λ c. record c { insunits = p.insunits }))
      (alter_binding v i (mapped (parsed_binding p now)) w)

unfoldable pub steps : List FileCall → FileView → FileView
steps [] w = w
steps (c ∷ cs) w = steps cs (step c w)
