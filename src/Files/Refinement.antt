-- ===== src/Files/Refinement.antt =====
-- The tables of app/files.py as an implementation of two maps.
use smdr.Table.Rows.{first_sound}
use smdr.Table.Deletes.{first-delete}
use smdr.Prelude.{
  String, ℕ, ◌≡◌, Option, refl, Option-cases, inl, ◌++◌, inr, ◌∙◌, ◌∷◌, eq_iff, arith, [],
  Bool-cases, some, same, eq_refl, subst, none, ap, sym,
}
use smdr.Files.Bindings.{
  register_content, unbind_role, bind, update_binding, update_content, is_in_role, new_binding,
  new_content, set_insunits, set_dxf_recover_notes, unbind, update_selected_layers,
  clear_selected_layers, update_side_regions, clear_side_regions, set_user_unit_override,
  set_chosen_layout, set_match_saved, update_status, update_parsed, parsed_binding,
}
use std.Path.{fun_ext}
use smdr.Versions.Rows.{Binding}
use smdr.Versions.Creation.{binding_clashes}
use smdr.Table.{first, delete}
use smdr.Table.Unique.{IsUnique}
use smdr.Files.Rows.{Content, FileDb, is_binding, content_of}
use smdr.Files.Maps.{
  IsKept, binding_of-update, binding_of-delete, content_of-update, content_of-append,
  binding_of-append, one_binding,
}
use smdr.Files.Calls.{
  FileCall, FileView, view, perform, step, alter_content, alter_binding, mapped, unbinds_role,
  binds, registers, sets_insunits, sets_notes, unbinds, selects_layers, clears_layers, sets_regions,
  clears_regions, sets_unit, sets_layout, sets_match_saved, sets_status, sets_parsed,
}

-- Two views are equal if they agree at every key.
view-ext :
    (w x : FileView)
    → ((i : String) → w.content i ≡ x.content i)
    → ((v i : String) → w.binding v i ≡ x.binding v i)
    → w ≡ x
view-ext w x h k n = record { content = fun_ext h n; binding = fun_ext (λ v. fun_ext (k v)) n }

view-update_binding :
    (v i : String) (g : Binding → Binding)
    → IsKept g
    → (s : FileDb) → view (update_binding v i g s) ≡ alter_binding v i (mapped g) (view s)
view-update_binding v i g kept s =
    view-ext (view (update_binding v i g s)) (alter_binding v i (mapped g) (view s)) (λ j. refl)
      (λ u j. binding_of-update v i u j g kept s.version_files)

view-update_content :
    (i : String) (g : Content → Content)
    → ((c : Content) → (g c).id ≡ c.id)
    → (s : FileDb) → view (update_content i g s) ≡ alter_content i (mapped g) (view s)
view-update_content i g kept s =
    view-ext (view (update_content i g s)) (alter_content i (mapped g) (view s))
      (λ j. content_of-update i j g kept s.files) (λ u j. refl)

register_content_new :
    (i name : String) (size now : ℕ) (s : FileDb)
    → content_of i s ≡ none
    → register_content i name size now s
      ≡ record s { files = s.files ++ new_content i name size now ∷ [] }
unfolding register_content
register_content_new i name size now s e = ground arith

register_content_known :
    (i name : String) (size now : ℕ) (s : FileDb) {c : Content}
    → content_of i s ≡ some c
    → register_content i name size now s ≡ s
unfolding register_content
register_content_known i name size now s e = ground arith

view-register_content :
    (i name : String) (size now : ℕ) (s : FileDb)
    → view (register_content i name size now s) ≡ step (registers i name size now) (view s)
unfolding step
view-register_content i name size now s = elim (Option-cases (content_of i s)) [
  | inl fresh ↦
      ap view (register_content_new i name size now s fresh)
      ∙ view-ext (view (record s { files = s.files ++ new_content i name size now ∷ [] }))
          (step (registers i name size now) (view s))
          (λ j. elim (Bool-cases (same i j)) [
            | inl e ↦
                let q : i ≡ j = (eq_iff i j).0 e in
                rw
                  (
                    content_of-append i j (new_content i name size now) s.files refl fresh,
                    e,
                    subst (λ k. content_of k s ≡ none) q fresh,
                  )
                  refl
            | inr e ↦
                rw (content_of-append i j (new_content i name size now) s.files refl fresh, e) refl
          ])
          (λ u j. refl)
  | inr (c, found) ↦
      ap view (register_content_known i name size now s found)
      ∙ view-ext (view s) (step (registers i name size now) (view s))
          (λ j. elim (Bool-cases (same i j)) [
            | inl e ↦ rw (e, subst (λ k. content_of k s ≡ some c) ((eq_iff i j).0 e) found) refl
            | inr e ↦ rw e refl
          ])
          (λ u j. refl)
]

pub bind_known :
    (v r i : String) (x : Option String) (st : String) (now : ℕ) (s : FileDb) {c : Content}
    → content_of i s ≡ some c
    → (perform (binds v r i x st now) s ≡ record s {
      version_files = delete (is_binding v i) s.version_files ++ new_binding v r i x st now ∷ [];
    })
      × (step (binds v r i x st now) (view s)
          ≡ alter_binding v i (λ _. some (new_binding v r i x st now)) (view s))
unfolding bind perform step
bind_known v r i x st now s e = (ground arith, ground arith)

pub bind_unknown :
    (v r i : String) (x : Option String) (st : String) (now : ℕ) (s : FileDb)
    → content_of i s ≡ none
    → (perform (binds v r i x st now) s ≡ s) × (step (binds v r i x st now) (view s) ≡ view s)
unfolding bind perform step
bind_unknown v r i x st now s e = (ground arith, ground arith)

view-bind :
    (v r i : String) (x : Option String) (st : String) (now : ℕ) (s : FileDb)
    → IsUnique binding_clashes s.version_files
    → view (perform (binds v r i x st now) s) ≡ step (binds v r i x st now) (view s)
view-bind v r i x st now s unique = elim (Option-cases (content_of i s)) [
  | inl missing ↦ let (p, q) = bind_unknown v r i x st now s missing in ap view p ∙ sym q
  | inr (c, found) ↦
      let (p, q) = bind_known v r i x st now s found in
      ap view p
      ∙ view-ext
          (view (record s {
            version_files =
                delete (is_binding v i) s.version_files ++ new_binding v r i x st now ∷ [];
          }))
          (alter_binding v i (λ _. some (new_binding v r i x st now)) (view s)) (λ j. refl)
          (λ u j.
            rw
              (
                binding_of-append v i u j (new_binding v r i x st now)
                    (delete (is_binding v i) s.version_files) refl refl
                    (rw (binding_of-delete v i v i s.version_files unique, eq_refl v, eq_refl i)
                      refl),
                binding_of-delete v i u j s.version_files unique,
              )
              (ground arith))
      ∙ sym q
]

view-unbind_role :
    (v r : String) (s : FileDb)
    → IsUnique binding_clashes s.version_files
    → view (perform (unbinds_role v r) s) ≡ step (unbinds_role v r) (view s)
unfolding unbind_role perform step
view-unbind_role v r s unique =
    view-ext (view (perform (unbinds_role v r) s)) (step (unbinds_role v r) (view s)) (λ j. refl)
      (λ u j.
        first-delete binding_clashes (is_binding u j) (is_in_role v r) (one_binding u j)
          s.version_files unique
        ∙ elim (Option-cases (first (is_binding u j) s.version_files)) [
          | inl e ↦ rw (step, e) refl
          | inr (b, e) ↦ ground (
            arith,
            first_sound (is_binding u j) s.version_files b e,
            eq_iff b.version_id u,
            eq_iff b.version_id v,
            eq_iff u v,
          )
        ])

pub perform-step :
    (c : FileCall) (s : FileDb)
    → IsUnique binding_clashes s.version_files
    → view (perform c s) ≡ step c (view s)
unfolding perform step set_insunits set_dxf_recover_notes unbind update_selected_layers
    clear_selected_layers update_side_regions clear_side_regions set_user_unit_override
    set_chosen_layout set_match_saved update_status update_parsed
perform-step (registers i name size now) s h = view-register_content i name size now s
perform-step (sets_insunits i u) s h = view-update_content i _ (λ c. refl) s
perform-step (sets_notes i n) s h = view-update_content i _ (λ c. refl) s
perform-step (binds v r i x st now) s h = view-bind v r i x st now s h
perform-step (unbinds v i) s h =
    view-ext (view (unbind v i s).1) (step (unbinds v i) (view s)) (λ j. refl)
      (λ u j. binding_of-delete v i u j s.version_files h)
perform-step (unbinds_role v r) s h = view-unbind_role v r s h
perform-step (selects_layers v i l) s h = view-update_binding v i _ (λ b. (refl, refl)) s
perform-step (clears_layers v i) s h = view-update_binding v i _ (λ b. (refl, refl)) s
perform-step (sets_regions v i a b c) s h = view-update_binding v i _ (λ b. (refl, refl)) s
perform-step (clears_regions v i) s h = view-update_binding v i _ (λ b. (refl, refl)) s
perform-step (sets_unit v i u) s h = view-update_binding v i _ (λ b. (refl, refl)) s
perform-step (sets_layout v i l) s h = view-update_binding v i _ (λ b. (refl, refl)) s
perform-step (sets_match_saved v i m) s h = view-update_binding v i _ (λ b. (refl, refl)) s
perform-step (sets_status v i st e) s h = view-update_binding v i _ (λ b. (refl, refl)) s
perform-step (sets_parsed v i p now) s h =
    view-update_content i (λ c. record c { insunits = p.insunits }) (λ c. refl)
      (update_binding v i (parsed_binding p now) s)
    ∙ ap (alter_content i (mapped (λ c. record c { insunits = p.insunits })))
        (view-update_binding v i (parsed_binding p now) (λ b. (refl, refl)) s)
