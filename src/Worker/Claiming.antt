-- ===== src/Worker/Claiming.antt =====
-- The claim loop of app/worker_loop.py: that it ends, and where.
use smdr.Prelude.{
  ℕ, ◌+◌, ◌≤◌, ◌<◌, List, [], ◌∷◌, String, length, arith, Option-cases, ◌≡◌, some, inl, inr, Bool,
  Option, ◌⊎◌, refl, true, ltb, ◌&&◌, not, none, suc, false, if◌then◌else◌, Bool-cases, ◌∙◌, zero,
}
use smdr.JobStore.Rows.{Job, JobDict}
use smdr.JobStore.Queue.{claim_next}
use smdr.JobStore.Lifecycle.{append_parent_error}
use smdr.Json.{Json}
use smdr.Jobs.Stores.{Stores, JobResult, truthy}
use smdr.Jobs.Plans.{execution_plan, planned, unplanned, Planned, Plan}
use smdr.Jobs.Effects.{apply_failure, report_to_parent, error_entry, failed_files, with_traceback}
use smdr.Worker.Queued.{
  queued_count, fail-le, bump_parent_done-le, append_parent_error-le, claim_next-queued,
}
use smdr.Worker.Ticks.{
  Worker, Entry, Step, went, threw, put_entry, reap_broken, start, claim_loop, on_table, Future,
}

report_to_parent-le :
    (job : Job) (message : String) (now : ℕ) (w x : Stores)
    → report_to_parent job message now w ≡ some x
    → queued_count x.jobs ≤ queued_count w.jobs
unfolding report_to_parent
report_to_parent-le job message now w x e = elim (Option-cases (truthy job.parent_id)) [
  | inl n ↦ ground (arith, e, n)
  | inr (p, s) ↦ elim (Option-cases (append_parent_error p (error_entry job message) w.jobs)) [
    | inl n ↦ ground (arith, e, n, s)
    | inr (t, a) ↦ ground (
      arith,
      e,
      s,
      a,
      append_parent_error-le p (error_entry job message) w.jobs t a,
      bump_parent_done-le p now t,
    )
  ]
]

apply_failure-le :
    (job : Job) (message tb : String) (now : ℕ) (w : Stores)
    → queued_count (apply_failure job message tb now w).1.jobs ≤ queued_count w.jobs
unfolding apply_failure
apply_failure-le job message tb now w =
    let w' : Stores = record w { files = failed_files job (with_traceback message tb) w.files } in
    elim (Option-cases (report_to_parent job message now w')) [
      | inl e ↦ ground (arith, e)
      | inr (x, e) ↦ ground (arith, e, report_to_parent-le job message now w' x e)
    ]

length-put_entry : (e : Entry) (es : List Entry) → length (put_entry e es) ≤ length es + 1
unfolding put_entry
length-put_entry e [] = omega arith
length-put_entry e (f ∷ fs) = ground (arith, length-put_entry e fs)

module _ (is_close : ℕ → ℕ → Bool) (delete_blob : String → List String → Option (List String))
    (encode : JobResult → Json) (tb : String) (now : ℕ) where
  reap_broken-le :
      (job : Job) (message : String) (w : Stores)
      → queued_count (reap_broken is_close delete_blob encode tb now job message w).1.jobs
        ≤ queued_count w.jobs
  unfolding reap_broken
  reap_broken-le job message w =
      let (ok, x) = apply_failure job message tb now w in
      ground (
        arith,
        apply_failure-le job message tb now w,
        fail-le job.id (with_traceback message tb) now (apply_failure job message tb now w).1.jobs,
      )

  -- A start adds no queued job and one entry at most.
  start-le :
      (job : Job) (s : Worker)
      → (queued_count (start is_close delete_blob encode tb now job s).1.stores.jobs
          ≤ queued_count s.stores.jobs)
        × (length (start is_close delete_blob encode tb now job s).1.inflight
            ≤ length s.inflight + 1)
  unfolding start
  start-le job s = elim (Planned-cases (execution_plan job)) [
    | inl (p, e) ↦
        ground
          (arith, e, length-put_entry (record { job = job; future = Future.pending }) s.inflight)
    | inr (m, e) ↦ ground (arith, e, reap_broken-le job m s.stores)
  ]
    where
      Planned-cases :
          (p : Planned) → ((q : Plan) × (p ≡ planned q)) ⊎ ((m : String) × (p ≡ unplanned m))
      Planned-cases (planned q) = inl (q, refl)
      Planned-cases (unplanned m) = inr (m, refl)

  -- The worker that a step leaves behind.
  abbrev pub after_step : Step → Worker
  after_step (went activity s) = s
  after_step (threw s) = s

  -- Why a claim loop stops that no exception leaves.
  abbrev pub IsSettled : ℕ → Bool → Step → Type 0
  IsSettled max_workers stopped (threw s) = Unit
  IsSettled max_workers stopped (went activity s) =
      (max_workers ≤ length s.inflight) ⊎ ((stopped ≡ true) ⊎ (queued_count s.stores.jobs ≡ 0))

  abbrev claims : String → ℕ → Bool → ℕ → Bool → Worker → Option Step
  claims = claim_loop is_close delete_blob encode tb now

  claim_loop-full :
      (identity : String) (max_workers : ℕ) (stopped : Bool) (n : ℕ) (activity : Bool) (s : Worker)
      → (ltb (length s.inflight) max_workers && not stopped) ≡ false
      → claims identity max_workers stopped (suc n) activity s ≡ some (went activity s)
  unfolding claim_loop
  claim_loop-full identity max_workers stopped n activity s e = ground (arith, e)

  abbrev left_by : String → Worker → Worker
  left_by identity s = record s {
    stores = on_table (λ _. (claim_next identity now [] s.stores.jobs).1) s.stores;
  }

  claim_loop-none :
      (identity : String) (max_workers : ℕ) (stopped : Bool) (n : ℕ) (activity : Bool) (s : Worker)
      → (ltb (length s.inflight) max_workers && not stopped) ≡ true
      → (claim_next identity now [] s.stores.jobs).0 ≡ none
      → claims identity max_workers stopped (suc n) activity s
        ≡ some (went activity (left_by identity s))
  unfolding claim_loop
  claim_loop-none identity max_workers stopped n activity s e q = ground (arith, e, q)

  claim_loop-some :
      (identity : String) (max_workers : ℕ) (stopped : Bool) (n : ℕ) (activity : Bool) (s : Worker)
      (d : JobDict)
      → (ltb (length s.inflight) max_workers && not stopped) ≡ true
      → (claim_next identity now [] s.stores.jobs).0 ≡ some d
      → claims identity max_workers stopped (suc n) activity s ≡ (
          let r = start is_close delete_blob encode tb now d.row (left_by identity s) in
          if r.0 then claims identity max_workers stopped n true r.1 else some (threw r.1))
  unfolding claim_loop
  claim_loop-some identity max_workers stopped n activity s d e q = ground (arith, e, q)

  -- With more fuel than there are queued jobs, the claim loop ends; if no more jobs were in flight than
  -- there are slots, then none are after it; and it ends with every slot in use, on a stop, with an empty
  -- queue, or in an exception.
  pub claim_loop-settles :
      (identity : String) (max_workers : ℕ) (stopped : Bool) (fuel : ℕ) (activity : Bool)
      (s : Worker)
      → queued_count s.stores.jobs < fuel
      → length s.inflight ≤ max_workers
      → (step : Step) × (claims identity max_workers stopped fuel activity s ≡ some step)
        × (length (after_step step).inflight ≤ max_workers)
        × IsSettled max_workers stopped step
  claim_loop-settles identity max_workers stopped zero activity s few room = ground (arith, few)
  claim_loop-settles identity max_workers stopped (suc n) activity s few room =
      elim (Bool-cases (ltb (length s.inflight) max_workers && not stopped)) [
        | inl free ↦ elim (claim_next-queued identity now s.stores.jobs) [
          | inl (e, q) ↦ (
            went activity (left_by identity s),
            claim_loop-none identity max_workers stopped n activity s free e,
            room,
            inr (inr q),
          )
          | inr (d, e, fewer) ↦
              let r = start is_close delete_blob encode tb now d.row (left_by identity s) in
              let le = start-le d.row (left_by identity s) in
              let slots : length r.1.inflight ≤ max_workers = ground (arith, free, le.1) in
              elim (Bool-cases r.0) [
                | inl y ↦
                    let (step, out, bound, settled) =
                      claim_loop-settles identity max_workers stopped n true r.1
                        (omega (arith, le.0, fewer, few)) slots in
                    (
                      step,
                      claim_loop-some identity max_workers stopped n activity s d free e ∙ rw y out,
                      bound,
                      settled,
                    )
                | inr k ↦ (
                  threw r.1,
                  claim_loop-some identity max_workers stopped n activity s d free e ∙ rw k refl,
                  slots,
                  tt,
                )
              ]
        ]
        | inr full ↦ (
          went activity s,
          claim_loop-full identity max_workers stopped n activity s full,
          room,
          elim (Bool-cases stopped) [ inl y ↦ inr (inl y) | inr k ↦ inl (ground (arith, full, k)) ],
        )
      ]
