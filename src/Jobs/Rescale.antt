-- ===== src/Jobs/Rescale.antt =====
-- A preprocess result whose scale is another than the binding's, by `_apply_preprocess_result` of
-- app/jobs.py.
use smdr.Prelude.{
  ℕ, String, ◌≡◌, Bool, some, List, Option, not, false, true, ◌==◌, none, arith, if◌then◌else◌,
  Bool-cases, inl, inr, refl, subst, sym,
}
use smdr.Versions.Rows.{Binding}
use smdr.Files.Rows.{FileDb, binding_of}
use smdr.Files.Bindings.{Parse, update_parsed, set_match_saved}
use smdr.Jobs.Stores.{Stores, JobResult, returned, raised, match_key}
use smdr.Jobs.Effects.{
  maybe_clear_redundant_unit_override, invalidate_match_after_rescale, apply_parse,
}
use smdr.Jobs.Preprocessed.{
  Changes, stored_binding, stored_files, stored-Changes, invalidated-Changes, with_unit,
  cleared-Changes, Changes-then,
}

module _ (v i : String) (p : Parse) (now : ℕ) where
  pub update_parsed-changed :
      (s : FileDb) (b : Binding)
      → binding_of v i s ≡ some b
      → (update_parsed v i p now s).0 ≡ not (b.applied_scale == p.applied_scale)
  unfolding update_parsed
  update_parsed-changed s b e = ground (arith, e)

module _ (is_close : ℕ → ℕ → Bool) (delete_blob : String → List String → Option (List String))
    (v i : String) (p : Parse) (r : JobResult) (now : ℕ) (w : Stores) where
  abbrev pub stored : Stores
  stored = record w { files = stored_files v i p r now w.files }

  abbrev pub cleared : Stores → Stores
  cleared x = record x { files = maybe_clear_redundant_unit_override is_close v i r x.files }

  abbrev unsaved : List String → Stores
  unsaved blobs = record stored { blobs = blobs; files = set_match_saved v i false stored.files }

  pub apply_parse-unchanged :
      (update_parsed v i p now w.files).0 ≡ false
      → apply_parse is_close delete_blob v i p r now w ≡ returned (cleared stored)
  unfolding apply_parse
  apply_parse-unchanged e = ground (arith, e)

  apply_parse-deleted :
      (blobs : List String)
      → (update_parsed v i p now w.files).0 ≡ true
      → delete_blob (match_key v i) w.blobs ≡ some blobs
      → apply_parse is_close delete_blob v i p r now w ≡ returned (cleared (unsaved blobs))
  unfolding apply_parse invalidate_match_after_rescale
  apply_parse-deleted blobs e d = ground (arith, e, d)

  pub apply_parse-undeleted :
      (update_parsed v i p now w.files).0 ≡ true
      → delete_blob (match_key v i) w.blobs ≡ none
      → apply_parse is_close delete_blob v i p r now w ≡ raised "delete failed" stored
  unfolding apply_parse invalidate_match_after_rescale
  apply_parse-undeleted e d = ground (arith, e, d)

  abbrev pub kept_match : Bool → Binding → Binding
  kept_match keeps b = if keeps then b else record b { match_saved = false }

  -- The binding that the result makes of one whose scale it keeps, or not.
  abbrev pub landed : Bool → Binding → Binding
  landed keeps b = with_unit v i is_close r (kept_match keeps (stored_binding v i p r now b))

  cleared_after :
      (g : Binding → Binding) (x : Stores)
      → Changes v i g w.files x.files
      → Changes v i (λ b. with_unit v i is_close r (g b)) w.files (cleared x).files
  cleared_after g x h =
      Changes-then v i g (with_unit v i is_close r) w.files x.files (cleared x).files h
        (cleared-Changes v i is_close r x.files)

  -- If the binding is there and the blob store deletes what it is asked to, then a preprocess result
  -- returns: the binding gets the parse, the paper-space layout that it was rendered from and, if its unit
  -- override is what the detector chooses, no override; its saved match is dropped, the flag and the file,
  -- exactly if the scale changed; no other binding and no job changes.
  pub apply_parse-landed :
      (b : Binding) (blobs : List String)
      → binding_of v i w.files ≡ some b
      → delete_blob (match_key v i) w.blobs ≡ some blobs
      → (x : Stores) × (apply_parse is_close delete_blob v i p r now w ≡ returned x)
        × Changes v i (landed (b.applied_scale == p.applied_scale)) w.files x.files
        × (x.blobs ≡ (if b.applied_scale == p.applied_scale then w.blobs else blobs))
        × (x.jobs ≡ w.jobs)
  apply_parse-landed b blobs e d = elim (Bool-cases (b.applied_scale == p.applied_scale)) [
    | inl y ↦ (
      cleared stored,
      apply_parse-unchanged (rw (update_parsed-changed v i p now w.files b e, y) refl),
      subst (λ k. Changes v i (landed k) w.files (cleared stored).files) (sym y)
          (cleared_after (stored_binding v i p r now) stored (stored-Changes v i p r now w.files)),
      rw y refl,
      refl,
    )
    | inr n ↦ (
      cleared (unsaved blobs),
      apply_parse-deleted blobs (rw (update_parsed-changed v i p now w.files b e, n) refl) d,
      subst (λ k. Changes v i (landed k) w.files (cleared (unsaved blobs)).files) (sym n)
          (cleared_after (λ c. record (stored_binding v i p r now c) { match_saved = false })
            (unsaved blobs)
            (Changes-then v i (stored_binding v i p r now) (λ c. record c { match_saved = false })
              w.files stored.files (unsaved blobs).files (stored-Changes v i p r now w.files)
              (invalidated-Changes v i stored.files))),
      rw n refl,
      refl,
    )
  ]
