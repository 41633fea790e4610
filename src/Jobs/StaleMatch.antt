-- ===== src/Jobs/StaleMatch.antt =====
-- A preprocess result whose match could not be deleted, and the same result again, by
-- `_apply_preprocess_result` of app/jobs.py.
use smdr.Prelude.{
  String, ◌≡◌, ℕ, Bool, arith, List, some, Option, eq_refl, ◌==◌, refl, false, none, ◌∙◌,
}
use smdr.Versions.Rows.{Binding}
use smdr.Files.Rows.{FileDb, binding_of}
use smdr.Files.Bindings.{Parse, parsed_binding, update_parsed}
use smdr.Jobs.Stores.{Stores, JobResult, returned, raised, match_key}
use smdr.Jobs.Effects.{apply_parse, maybe_clear_redundant_unit_override}
use smdr.Jobs.Preprocessed.{
  Changes, stored_binding, stored-Changes, with_unit, with_layout, stored_files, cleared-Changes,
}
use smdr.Jobs.Rescale.{
  stored, cleared, apply_parse-unchanged, apply_parse-undeleted, update_parsed-changed,
}

-- The columns that neither a layout nor a unit override is.
with_layout-keeps :
    (v i : String) (r : JobResult) (b : Binding)
    → ((with_layout v i r b).match_saved ≡ b.match_saved)
      × ((with_layout v i r b).applied_scale ≡ b.applied_scale)
with_layout-keeps v i r b = (ground arith, ground arith)

with_unit-keeps :
    (v i : String) (is_close : ℕ → ℕ → Bool) (r : JobResult) (b : Binding)
    → ((with_unit v i is_close r b).match_saved ≡ b.match_saved)
      × ((with_unit v i is_close r b).applied_scale ≡ b.applied_scale)
with_unit-keeps v i is_close r b = (ground arith, ground arith)

-- What the one change does to the binding itself.
Changes-own :
    (v i : String) (g : Binding → Binding) (s s' : FileDb) (b : Binding)
    → Changes v i g s s'
    → binding_of v i s ≡ some b
    → binding_of v i s' ≡ some (g b)
Changes-own v i g s s' b h e = rw (h v i, eq_refl v, eq_refl i, e) refl

module _ (is_close : ℕ → ℕ → Bool) (delete_blob : String → List String → Option (List String))
    (v i : String) (p : Parse) (r : JobResult) (now later : ℕ) (w : Stores) where
  stored-own :
      (b : Binding)
      → binding_of v i w.files ≡ some b
      → binding_of v i (stored is_close delete_blob v i p r now w).files
        ≡ some (stored_binding v i p r now b)
  stored-own b e =
      Changes-own v i (stored_binding v i p r now) w.files
        (stored is_close delete_blob v i p r now w).files b (stored-Changes v i p r now w.files) e

  -- If the scale changed and the blob store cannot delete the saved match, then a preprocess result
  -- raises after the new scale is stored, and the same result a second time returns without a delete:
  -- the saved match of the old scale, the flag and the file, stays.
  pub stale_match_kept :
      (b : Binding)
      → binding_of v i w.files ≡ some b
      → (b.applied_scale == p.applied_scale) ≡ false
      → delete_blob (match_key v i) w.blobs ≡ none
      → (w' : Stores) × (apply_parse is_close delete_blob v i p r now w ≡ raised "delete failed" w')
        × ((x : Stores) × (apply_parse is_close delete_blob v i p r later w' ≡ returned x)
            × (x.blobs ≡ w.blobs)
            × ((b' : Binding) × (binding_of v i x.files ≡ some b')
                × (b'.match_saved ≡ b.match_saved)
                × (b'.applied_scale ≡ p.applied_scale)))
  stale_match_kept b e changed fails =
      let w' : Stores = stored is_close delete_blob v i p r now w in
      let b' : Binding = stored_binding v i p r now b in
      let first_keeps = with_layout-keeps v i r (parsed_binding p now b) in
      let unchanged : (update_parsed v i p later w'.files).0 ≡ false =
        rw (update_parsed-changed v i p later w'.files b' (stored-own b e), first_keeps.1)
          (ground arith) in
      let again : Binding = stored_binding v i p r later b' in
      let again_keeps = with_layout-keeps v i r (parsed_binding p later b') in
      let unit_keeps = with_unit-keeps v i is_close r again in
      (
        w',
        apply_parse-undeleted is_close delete_blob v i p r now w
            (rw (update_parsed-changed v i p now w.files b e, changed) refl) fails,
        (
          cleared is_close delete_blob v i p r later w
              (stored is_close delete_blob v i p r later w'),
          apply_parse-unchanged is_close delete_blob v i p r later w' unchanged,
          refl,
          (
            with_unit v i is_close r again,
            Changes-own v i (with_unit v i is_close r) (stored_files v i p r later w'.files)
                (maybe_clear_redundant_unit_override is_close v i r
                  (stored_files v i p r later w'.files))
                again (cleared-Changes v i is_close r (stored_files v i p r later w'.files))
                (Changes-own v i (stored_binding v i p r later) w'.files
                  (stored_files v i p r later w'.files) b' (stored-Changes v i p r later w'.files)
                  (stored-own b e)),
            unit_keeps.0 ∙ again_keeps.0 ∙ first_keeps.0,
            unit_keeps.1 ∙ again_keeps.1,
          ),
        ),
      )
