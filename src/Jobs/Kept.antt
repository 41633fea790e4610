-- ===== src/Jobs/Kept.antt =====
-- The store side effects of a result, in app/jobs.py, leave the job table alone.
use smdr.Prelude.{
  ℕ, String, Bool, true, false, List, Option, none, some, ◌≡◌, if◌then◌else◌, refl, same,
  Option-cases, inl, inr,
}
use smdr.JobStore.Rows.{Job}
use smdr.Files.Bindings.{Parse, update_parsed}
use smdr.Jobs.Stores.{Stores, JobResult, Ran, returned, raised, match_key}
use smdr.Jobs.Effects.{
  apply_parse, apply_preprocess_result, store_effects, with_ids, invalidate_match_after_rescale,
  parse_of,
}

module _ (w : Stores) where
  abbrev pub KeepsJobs : Ran → Type 0
  KeepsJobs (returned x) = x.jobs ≡ w.jobs
  KeepsJobs (raised message x) = x.jobs ≡ w.jobs

  KeepsJobs-if : (c : Bool) (a b : Ran) → KeepsJobs a → KeepsJobs b → KeepsJobs (if c then a else b)
  KeepsJobs-if true a b p q = p
  KeepsJobs-if false a b p q = q

  KeepsJobs-option :
      {A : Type 0} (o : Option A) (a : Ran) (f : A → Ran)
      → KeepsJobs a
      → ((x : A) → KeepsJobs (f x))
      → KeepsJobs (elim o [ none ↦ a | some x ↦ f x ])
  KeepsJobs-option none a f p q = p
  KeepsJobs-option (some x) a f p q = q x

  with_ids-KeepsJobs :
      (job : Job) (f : String → String → Ran)
      → ((v i : String) → KeepsJobs (f v i))
      → KeepsJobs (with_ids job f w)
  with_ids-KeepsJobs job f h =
      KeepsJobs-option job.version_id (returned w) _ refl
        (λ v. KeepsJobs-option job.file_id (returned w) (f v) refl (h v))

  module _ (is_close : ℕ → ℕ → Bool)
      (delete_blob : String → List String → Option (List String)) where
    apply_parse-KeepsJobs :
        (v i : String) (p : Parse) (r : JobResult) (now : ℕ)
        → KeepsJobs (apply_parse is_close delete_blob v i p r now w)
    unfolding apply_parse invalidate_match_after_rescale
    apply_parse-KeepsJobs v i p r now =
        KeepsJobs-if (update_parsed v i p now w.files).0 _ _
          (elim (Option-cases (delete_blob (match_key v i) w.blobs)) [
            | inl e ↦ rw e refl
            | inr (blobs, e) ↦ rw e refl
          ])
          refl

    pub store_effects-KeepsJobs :
        (job : Job) (r : JobResult) (now : ℕ)
        → KeepsJobs (store_effects is_close delete_blob job r now w)
    unfolding store_effects apply_preprocess_result
    store_effects-KeepsJobs job r now =
        KeepsJobs-if (same job.kind "preprocess") _ _
          (with_ids-KeepsJobs job _ (λ v i.
            KeepsJobs-option (parse_of r) (raised "missing key" w) _ refl
              (λ p. apply_parse-KeepsJobs v i p r now)))
          (KeepsJobs-if (same job.kind "discover") _ _ (with_ids-KeepsJobs job _ (λ v i. refl)) (
            KeepsJobs-if (same job.kind "save_match") _ _ (with_ids-KeepsJobs job _ (λ v i. refl))
              refl))
