-- ===== src/Worker/Reaping.antt =====
-- The reaping of app/worker_loop.py, over the children of one reprocess-all.
use smdr.Table.{delete}
use smdr.Prelude.{
  ℕ, ◌+◌, List, [], ◌∷◌, All, String, same, ◌≡◌, false, Bool, Option, ◌⊎◌, some, inl, refl, true,
  arith, none, inr, subst, sym, Option-cases, length, Bool-cases,
}
use smdr.Json.{Json}
use smdr.JobStore.Rows.{Job}
use smdr.JobStore.Lifecycle.{fail, complete}
use smdr.Jobs.Stores.{Stores, JobResult, Ran, returned, raised, truthy}
use smdr.Jobs.Kept.{store_effects-KeepsJobs}
use smdr.Jobs.Effects.{
  apply_failure, apply_success, store_effects, report_to_parent, error_entry, failed_files,
  with_traceback, bumped, applied,
}
use smdr.Worker.Children.{
  IsCounted, fail-IsCounted, complete-IsCounted, append_parent_error-IsCounted,
  bump_parent_done-IsCounted,
}
use smdr.Worker.Ticks.{
  Worker, Entry, went, is_entry_of, is_done, reap_broken, reap_resolved, reap_entry, reap_entries,
  Future, on_table,
}

module _ (p : String) (named : same p "" ≡ false) where
  truthy-named : (o : Option String) → o ≡ some p → truthy o ≡ some p
  truthy-named o e = rw (e, named) refl

  report_to_parent-IsCounted :
      (job : Job) (message : String) (now n d : ℕ) (w : Stores)
      → job.parent_id ≡ some p
      → IsCounted p n d w.jobs
      → (x : Stores) × (report_to_parent job message now w ≡ some x) × IsCounted p n (d + 1) x.jobs
  unfolding report_to_parent
  report_to_parent-IsCounted job message now n d w child h =
      let (t, e, h') = append_parent_error-IsCounted p (error_entry job message) n d w.jobs h in
      (
        bumped p now (record w { jobs = t }),
        ground (arith, truthy-named job.parent_id child, e),
        bump_parent_done-IsCounted p now n d t h',
      )

  apply_failure-IsCounted :
      (job : Job) (message tb : String) (now n d : ℕ) (w : Stores)
      → job.parent_id ≡ some p
      → IsCounted p n d w.jobs
      → (x : Stores) × (apply_failure job message tb now w ≡ (true, x))
        × IsCounted p n (d + 1) x.jobs
  unfolding apply_failure
  apply_failure-IsCounted job message tb now n d w child h =
      let w' : Stores = record w { files = failed_files job (with_traceback message tb) w.files } in
      let (x, e, h') = report_to_parent-IsCounted job message now n d w' child h in
      (x, ground (arith, e), h')

  Ran-cases :
      (r : Ran)
      → ((x : Stores) × (r ≡ returned x)) ⊎ ((m : String) × (x : Stores) × (r ≡ raised m x))
  Ran-cases (returned x) = inl (x, refl)
  Ran-cases (raised m x) = inr (m, x, refl)

  module _ (is_close : ℕ → ℕ → Bool) (delete_blob : String → List String → Option (List String))
      (encode : JobResult → Json) (tb : String) (now : ℕ) where
    apply_success-IsCounted :
        (job : Job) (r : JobResult) (n d : ℕ) (w : Stores)
        → job.parent_id ≡ some p
        → IsCounted p n d w.jobs
        → (out : Option String) × (x : Stores) × (apply_success is_close delete_blob job r tb now w
            ≡ applied out x)
          × IsCounted p n (d + 1) x.jobs
    unfolding apply_success
    apply_success-IsCounted job r n d w child h =
        let kept = store_effects-KeepsJobs w is_close delete_blob job r now in
        elim (Ran-cases (store_effects is_close delete_blob job r now w)) [
          | inl (x, e) ↦
              let same_jobs : x.jobs ≡ w.jobs = rw e at kept in
              (
                none,
                bumped p now x,
                ground (arith, e, truthy-named job.parent_id child),
                bump_parent_done-IsCounted p now n d x.jobs
                    (subst (IsCounted p n d) (sym same_jobs) h),
              )
          | inr (m, x, e) ↦
              let same_jobs : x.jobs ≡ w.jobs = rw e at kept in
              let (y, q, h') =
                report_to_parent-IsCounted job m now n d x child
                  (subst (IsCounted p n d) (sym same_jobs) h) in
              (some (with_traceback m tb), y, ground (arith, e, q), h')
        ]

    abbrev reaps : Entry → Stores → Bool × Stores
    reaps = reap_entry is_close delete_blob encode tb now

    -- A child of the parent, not the parent itself, whose future is done.
    abbrev pub IsEndedChild : Entry → Type 0
    IsEndedChild e =
        (e.job.parent_id ≡ some p) × (same p e.job.id ≡ false) × (is_done e.future ≡ true)

    reap_broken-IsCounted :
        (job : Job) (message : String) (n d : ℕ) (w : Stores)
        → job.parent_id ≡ some p
        → same p job.id ≡ false
        → IsCounted p n d w.jobs
        → (x : Stores) × (reap_broken is_close delete_blob encode tb now job message w ≡ (true, x))
          × IsCounted p n (d + 1) x.jobs
    unfolding reap_broken
    reap_broken-IsCounted job message n d w child other h =
        let (x, e, h') = apply_failure-IsCounted job message tb now n d w child h in
        (
          on_table (fail job.id (with_traceback message tb) now) x,
          ground (arith, e),
          fail-IsCounted p job.id (with_traceback message tb) now other n (d + 1) x.jobs h',
        )

    reap_resolved-IsCounted :
        (job : Job) (r : JobResult) (n d : ℕ) (w : Stores)
        → job.parent_id ≡ some p
        → same p job.id ≡ false
        → IsCounted p n d w.jobs
        → (x : Stores) × (reap_resolved is_close delete_blob encode tb now job r w ≡ (true, x))
          × IsCounted p n (d + 1) x.jobs
    unfolding reap_resolved
    reap_resolved-IsCounted job r n d w child other h =
        let (out, x, e, h') = apply_success-IsCounted job r n d w child h in
        let completed =
          complete-IsCounted p job.id (some (encode r)) now other n (d + 1) x.jobs h' in
        elim (Option-cases out) [
          | inl q ↦
              (on_table (complete job.id (some (encode r)) now) x, ground (arith, e, q), completed)
          | inr (m, q) ↦ elim (Bool-cases (same m "")) [
            | inl y ↦ (
              on_table (complete job.id (some (encode r)) now) x,
              ground (arith, e, q, y),
              completed,
            )
            | inr k ↦ (
              on_table (fail job.id m now) x,
              ground (arith, e, q, k),
              fail-IsCounted p job.id m now other n (d + 1) x.jobs h',
            )
          ]
        ]

    reap_entry-IsCounted :
        (e : Entry) (n d : ℕ) (w : Stores)
        → IsEndedChild e
        → IsCounted p n d w.jobs
        → (x : Stores) × (reaps e w ≡ (true, x)) × IsCounted p n (d + 1) x.jobs
    unfolding reap_entry
    reap_entry-IsCounted e n d w (child, other, ended) h = by_future e.future refl
      where
        by_future :
            (f : Future)
            → e.future ≡ f
            → (x : Stores) × (reaps e w ≡ (true, x)) × IsCounted p n (d + 1) x.jobs
        by_future Future.pending q = cc
        by_future (Future.resolved r) q =
            let (x, s, h') = reap_resolved-IsCounted e.job r n d w child other h in
            (x, ground (arith, q, s), h')
        by_future (Future.broken m) q =
            let (x, s, h') = reap_broken-IsCounted e.job m n d w child other h in
            (x, ground (arith, q, s), h')

    -- From a parent whose row counts `d` of its `n` children, and whose errors are a list or absent, the
    -- reaping of ended children returns, however they ended, and counts each of them once in that row,
    -- which is closed exactly if then all are done.
    pub reap_entries-counts :
        (es : List Entry) (activity : Bool) (n d : ℕ) (s : Worker)
        → All IsEndedChild es
        → IsCounted p n d s.stores.jobs
        → (active : Bool) × (s' : Worker) × (reap_entries is_close delete_blob encode tb now es
              activity s
            ≡ went active s')
          × IsCounted p n (d + length es) s'.stores.jobs
    unfolding reap_entries
    reap_entries-counts [] activity n d s h counted =
        (activity, s, refl, subst (λ m. IsCounted p n m s.stores.jobs) (omega arith) counted)
    reap_entries-counts (e ∷ es) activity n d s h counted =
        let (x, q, counted') = reap_entry-IsCounted e n d s.stores h.0 counted in
        let s' : Worker = record s {
          stores = x;
          inflight = delete (is_entry_of e.job.id) s.inflight;
        } in
        let (active, s'', r, counted'') = reap_entries-counts es true n (d + 1) s' h.1 counted' in
        (
          active,
          s'',
          ground (arith, q, r),
          subst (λ m. IsCounted p n m s''.stores.jobs) (omega arith) counted'',
        )
