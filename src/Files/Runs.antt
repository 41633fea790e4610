-- ===== src/Files/Runs.antt =====
-- Runs of the writes of app/files.py.
use smdr.Files.Maps.{IsKept, binding_of-delete}
use smdr.Prelude.{
  String, List, ℕ, Option, subst, ◌≡◌, refl, arith, ◌∷◌, sym, ◌∙◌, same_swap, ap, Option-cases, [],
  inl, inr, eq_refl,
}
use smdr.Versions.Rows.{Binding}
use smdr.Versions.Creation.{binding_clashes}
use smdr.Table.{delete}
use smdr.Table.Unique.{IsUnique, IsUnique-update, IsUnique-delete, IsUnique-append}
use smdr.Files.Rows.{FileDb, is_binding, content_of}
use smdr.Files.Bindings.{
  new_binding, update_binding, unbind, unbind_role, register_content, set_insunits,
  set_dxf_recover_notes, update_selected_layers, clear_selected_layers, update_side_regions,
  clear_side_regions, set_user_unit_override, set_chosen_layout, set_match_saved, update_status,
  update_parsed, is_in_role, parsed_binding,
}
use smdr.Files.Calls.{
  FileCall, perform, perform_all, steps, view, registers, binds, sets_insunits, sets_notes, unbinds,
  unbinds_role, selects_layers, clears_layers, sets_regions, clears_regions, sets_unit, sets_layout,
  sets_match_saved, sets_status, sets_parsed,
}
use smdr.Files.Refinement.{perform-step, bind_unknown, bind_known}

abbrev pub IsBound : FileDb → Type 0
IsBound s = IsUnique binding_clashes s.version_files

update_binding-IsBound :
    (v i : String) (g : Binding → Binding)
    → IsKept g
    → (s : FileDb) → IsBound s
    → IsBound (update_binding v i g s)
update_binding-IsBound v i g kept s =
    IsUnique-update binding_clashes (is_binding v i) g (λ a b. rw ((kept a).0, (kept a).1) refl)
      (λ a b. rw ((kept b).0, (kept b).1) refl) s.version_files

bind-IsBound :
    (v r i : String) (x : Option String) (st : String) (now : ℕ) (s : FileDb)
    → IsBound s
    → IsBound (perform (binds v r i x st now) s)
bind-IsBound v r i x st now s h = elim (Option-cases (content_of i s)) [
  | inl missing ↦ subst IsBound (sym (bind_unknown v r i x st now s missing).0) h
  | inr (c, found) ↦ subst IsBound (sym (bind_known v r i x st now s found).0) (
      IsUnique-append binding_clashes clashes_swap (new_binding v r i x st now)
        (delete (is_binding v i) s.version_files)
        (rw (binding_of-delete v i v i s.version_files h, eq_refl v, eq_refl i) refl)
        (IsUnique-delete binding_clashes (is_binding v i) s.version_files h))
]
  where
    clashes_swap : (a b : Binding) → binding_clashes a b ≡ binding_clashes b a
    clashes_swap a b = rw (same_swap a.version_id b.version_id, same_swap a.file_id b.file_id) refl

register_content-bindings :
    (i name : String) (size now : ℕ) (s : FileDb)
    → (register_content i name size now s).version_files ≡ s.version_files
unfolding register_content
register_content-bindings i name size now s = ground arith

perform-IsBound : (c : FileCall) (s : FileDb) → IsBound s → IsBound (perform c s)
unfolding perform set_insunits set_dxf_recover_notes unbind unbind_role update_selected_layers
    clear_selected_layers update_side_regions clear_side_regions set_user_unit_override
    set_chosen_layout set_match_saved update_status update_parsed
perform-IsBound (registers i name size now) s h =
    subst (IsUnique binding_clashes) (sym (register_content-bindings i name size now s)) h
perform-IsBound (sets_insunits i u) s h = h
perform-IsBound (sets_notes i n) s h = h
perform-IsBound (binds v r i x st now) s h = bind-IsBound v r i x st now s h
perform-IsBound (unbinds v i) s h =
    IsUnique-delete binding_clashes (is_binding v i) s.version_files h
perform-IsBound (unbinds_role v r) s h =
    IsUnique-delete binding_clashes (is_in_role v r) s.version_files h
perform-IsBound (selects_layers v i l) s h = update_binding-IsBound v i _ (λ b. (refl, refl)) s h
perform-IsBound (clears_layers v i) s h = update_binding-IsBound v i _ (λ b. (refl, refl)) s h
perform-IsBound (sets_regions v i a b c) s h = update_binding-IsBound v i _ (λ b. (refl, refl)) s h
perform-IsBound (clears_regions v i) s h = update_binding-IsBound v i _ (λ b. (refl, refl)) s h
perform-IsBound (sets_unit v i u) s h = update_binding-IsBound v i _ (λ b. (refl, refl)) s h
perform-IsBound (sets_layout v i l) s h = update_binding-IsBound v i _ (λ b. (refl, refl)) s h
perform-IsBound (sets_match_saved v i m) s h = update_binding-IsBound v i _ (λ b. (refl, refl)) s h
perform-IsBound (sets_status v i st e) s h = update_binding-IsBound v i _ (λ b. (refl, refl)) s h
perform-IsBound (sets_parsed v i p now) s h =
    update_binding-IsBound v i (parsed_binding p now) (λ b. (refl, refl)) s h

-- If no two bindings have one version and one file, then any sequence of the store's writes changes the
-- content of each file and the binding of each version and file, as the reads by key find them, as its
-- steps on the two maps do, and no two bindings have one version and one file after it.
pub perform_all-steps :
    (cs : List FileCall) (s : FileDb)
    → IsBound s
    → (view (perform_all cs s) ≡ steps cs (view s)) × IsBound (perform_all cs s)
unfolding perform_all steps
perform_all-steps [] s h = (refl, h)
perform_all-steps (c ∷ cs) s h =
    let rest = perform_all-steps cs (perform c s) (perform-IsBound c s h) in
    (rest.0 ∙ ap (steps cs) (perform-step c s h), rest.1)
