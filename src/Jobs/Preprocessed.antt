-- ===== src/Jobs/Preprocessed.antt =====
-- What a preprocess result does to the bindings and the saved match, by `_apply_preprocess_result` of
-- app/jobs.py.
use smdr.Prelude.{
  String, ◌≡◌, arith, if◌then◌else◌, not, same, ◌&&◌, none, some, Bool, ℕ, false, Option, true,
  refl,
}
use smdr.Versions.Rows.{Binding}
use smdr.Files.Rows.{FileDb, binding_of}
use smdr.Files.Bindings.{
  Parse, parsed_binding, update_binding, update_parsed, set_dxf_recover_notes, set_chosen_layout,
  set_match_saved, set_user_unit_override,
}
use smdr.Files.Maps.{IsKept, binding_of-update}
use smdr.Files.Calls.{mapped}
use smdr.Jobs.Stores.{JobResult, truthy}
use smdr.Jobs.Effects.{persist_source_layout, maybe_clear_redundant_unit_override, is_redundant}

module _ (v i : String) where
  -- One binding is changed by `g`, and no other.
  abbrev pub Changes : (Binding → Binding) → FileDb → FileDb → Type 0
  Changes g s s' =
      (u j : String)
      → binding_of u j s'
        ≡ (if same v u && same i j then mapped g (binding_of u j s) else binding_of u j s)

  Changes-update :
      (g : Binding → Binding) → IsKept g → (s : FileDb) → Changes g s (update_binding v i g s)
  Changes-update g kept s u j = binding_of-update v i u j g kept s.version_files

  pub Changes-then :
      (g h : Binding → Binding) (s s' s'' : FileDb)
      → Changes g s s'
      → Changes h s' s''
      → Changes (λ b. h (g b)) s s''
  Changes-then g h s s' s'' first_change second_change u j =
      ground (arith, first_change u j, second_change u j)

  pub Changes-none : (s : FileDb) → Changes (λ b. b) s s
  Changes-none s u j = ground arith

  Changes-if :
      (c : Bool) (g h : Binding → Binding) (s t u : FileDb)
      → Changes g s t
      → Changes h s u
      → Changes (λ b. if c then g b else h b) s (if c then t else u)
  Changes-if true g h s t u p q = p
  Changes-if false g h s t u p q = q

  Changes-option :
      (o : Option String) (g : Binding → Binding) (h : String → Binding → Binding) (s t : FileDb)
      (u : String → FileDb)
      → Changes g s t
      → ((x : String) → Changes (h x) s (u x))
      → Changes (λ b. elim o [ none ↦ g b | some x ↦ h x b ]) s (elim o [ none ↦ t | some x ↦ u x ])
  Changes-option none g h s t u p q = p
  Changes-option (some x) g h s t u p q = q x

  -- ---- the steps
  abbrev pub with_layout : JobResult → Binding → Binding
  with_layout r b = if not r.source_is_paperspace then b else elim (truthy r.source_layout) [
    | none ↦ b
    | some layout ↦ record b { chosen_layout = some layout }
  ]

  persist_source_layout-Changes :
      (r : JobResult) (s : FileDb) → Changes (with_layout r) s (persist_source_layout v i r s)
  unfolding persist_source_layout set_chosen_layout
  persist_source_layout-Changes r s =
      let pins : String → Binding → Binding =
        λ layout b. record b { chosen_layout = some layout } in
      let pinned : String → FileDb = λ layout. update_binding v i (pins layout) s in
      Changes-if (not r.source_is_paperspace) (λ b. b)
        (λ b. elim (truthy r.source_layout) [ none ↦ b | some layout ↦ pins layout b ]) s s
        (elim (truthy r.source_layout) [ none ↦ s | some layout ↦ pinned layout ]) (Changes-none s)
        (Changes-option (truthy r.source_layout) (λ b. b) pins s s pinned (Changes-none s)
          (λ layout. Changes-update (pins layout) (λ b. (refl, refl)) s))

  update_parsed-Changes :
      (p : Parse) (now : ℕ) (s : FileDb)
      → Changes (parsed_binding p now) s (update_parsed v i p now s).1
  unfolding update_parsed
  update_parsed-Changes p now s = Changes-update (parsed_binding p now) (λ b. (refl, refl)) s

  set_dxf_recover_notes-bindings :
      (notes : Option String) (s : FileDb)
      → (set_dxf_recover_notes i notes s).version_files ≡ s.version_files
  unfolding set_dxf_recover_notes
  set_dxf_recover_notes-bindings notes s = refl

  -- The binding after the parse and the layout of a result are stored.
  abbrev pub stored_binding : Parse → JobResult → ℕ → Binding → Binding
  stored_binding p r now b = with_layout r (parsed_binding p now b)

  abbrev pub stored_files : Parse → JobResult → ℕ → FileDb → FileDb
  stored_files p r now s =
      persist_source_layout v i r
        (set_dxf_recover_notes i r.dxf_recover_notes (update_parsed v i p now s).1)

  pub stored-Changes :
      (p : Parse) (r : JobResult) (now : ℕ) (s : FileDb)
      → Changes (stored_binding p r now) s (stored_files p r now s)
  unfolding set_dxf_recover_notes
  stored-Changes p r now s =
      Changes-then (parsed_binding p now) (with_layout r) s (update_parsed v i p now s).1
        (stored_files p r now s) (update_parsed-Changes p now s)
        (persist_source_layout-Changes r
          (set_dxf_recover_notes i r.dxf_recover_notes (update_parsed v i p now s).1))

  pub invalidated-Changes :
      (s : FileDb) → Changes (λ b. record b { match_saved = false }) s (set_match_saved v i false s)
  unfolding set_match_saved
  invalidated-Changes s =
      Changes-update (λ b. record b { match_saved = false }) (λ b. (refl, refl)) s

  module _ (is_close : ℕ → ℕ → Bool) where
    abbrev pub with_unit : JobResult → Binding → Binding
    with_unit r b = if is_redundant is_close r then record b { user_unit_override = none } else b

    pub cleared-Changes :
        (r : JobResult) (s : FileDb)
        → Changes (with_unit r) s (maybe_clear_redundant_unit_override is_close v i r s)
    unfolding maybe_clear_redundant_unit_override set_user_unit_override
    cleared-Changes r s =
        let unset : Binding → Binding = λ b. record b { user_unit_override = none } in
        Changes-if (is_redundant is_close r) unset (λ b. b) s (update_binding v i unset s) s
          (Changes-update unset (λ b. (refl, refl)) s) (Changes-none s)
