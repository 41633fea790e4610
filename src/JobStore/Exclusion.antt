-- ===== src/JobStore/Exclusion.antt =====
-- Two workers never hold one job: after a claim the job cannot be claimed again before a requeue.
use smdr.JobStore.Lifecycle.{close_parent, update_payload}
use smdr.Table.Rows.{first-append}
use smdr.Table.Keys.{by_key-delete, by_key-update, by_key_sound}
use smdr.JobStore.Frame.{perform-HasIds, settle-cases, report-cases}
use smdr.Table.{first, delete, update}
use smdr.JobStore.Queue.{try_claim}
use smdr.JobStore.Rows.{Jobs, row_of, Job, is_queued, NewJob, new_row}
use smdr.Prelude.{
  refl, String, ℕ, List, Bool, All, ◌≡◌, false, Option-cases, arith, none, ◌∷◌, some, inl, [], same,
  inr, eq_iff,
}
use smdr.JobStore.Claims.{HasIds, HasIds-try_claim, rowcount-try_claim, row_of-try_claim}
use smdr.JobStore.Attempts.{NotSubmit}
use smdr.JobStore.Trace.{
  Call, perform, run, requeue, submit, claim, settle, report, clean, beat, finish, give_up,
  set_payload, bump,
}

-- No call requeues stale jobs.
abbrev pub NotRequeue : Call → Type 0
NotRequeue (requeue now) = ⊥
NotRequeue _ = Unit

-- The row of the job is there and waits.
is_waiting : String → Jobs → Bool
is_waiting k t = elim (row_of k t) [ none ↦ false | some j ↦ is_queued j.status ]

module _ (k : String) (t : Jobs) (idle : is_waiting k t ≡ false) where
  is_waiting-update :
      (p : Job → Bool) (f : Job → Job)
      → ((j : Job) → (f j).id ≡ j.id)
      → ((j : Job) → is_queued j.status ≡ false → is_queued (f j).status ≡ false)
      → is_waiting k (update p f t) ≡ false
  unfolding is_waiting
  is_waiting-update p f ids keeps = elim (Option-cases (row_of k t)) [
    | inl e ↦ ground (arith, by_key-update (λ j. j.id) p f ids k t)
    | inr (j, e) ↦ ground (arith, by_key-update (λ j. j.id) p f ids k t, keeps j)
  ]

  is_waiting-delete : (p : Job → Bool) → HasIds t → is_waiting k (delete p t) ≡ false
  unfolding is_waiting
  is_waiting-delete p h = ground (arith, by_key-delete (λ j. j.id) p k t h)

  is_waiting-submit :
      (job_id : String) (now : ℕ) (n : NewJob)
      → same job_id k ≡ false
      → is_waiting k (perform (submit job_id now n) t) ≡ false
  unfolding perform is_waiting first
  is_waiting-submit job_id now n other =
      ground (arith, first-append (λ j. same j.id k) t (new_row job_id now n ∷ []))

  perform-is_waiting :
      (c : Call) → NotSubmit k c → NotRequeue c → HasIds t → is_waiting k (perform c t) ≡ false
  perform-is_waiting (submit job_id now n) other q h = is_waiting-submit job_id now n other
  perform-is_waiting (claim worker now job_id) other q h =
      unfold perform in is_waiting-update _ _ (λ j. refl) (λ j w. refl)
  perform-is_waiting (settle parent_id now) other q h = elim (settle-cases parent_id now t) [
    | inl e ↦ rw e idle
    | inr e ↦ rw e (unfold close_parent in is_waiting-update _ _ (λ j. refl) (λ j w. refl))
  ]
  perform-is_waiting (report parent_id entry) other q h = elim (report-cases parent_id entry t) [
    | inl e ↦ rw e idle
    | inr (payload, e) ↦
        rw e (unfold update_payload in is_waiting-update _ _ (λ j. refl) (λ j w. w))
  ]
  perform-is_waiting (clean now) other q h = unfold perform in is_waiting-delete _ h
  perform-is_waiting (beat worker now) other q h =
      unfold perform in is_waiting-update _ _ (λ j. refl) (λ j w. w)
  perform-is_waiting (requeue now) other q h = elim q [ ]
  perform-is_waiting (finish job_id result now) other q h =
      unfold perform in is_waiting-update _ _ (λ j. refl) (λ j w. refl)
  perform-is_waiting (give_up job_id message now) other q h =
      unfold perform in is_waiting-update _ _ (λ j. refl) (λ j w. refl)
  perform-is_waiting (set_payload job_id payload) other q h =
      unfold perform update_payload in is_waiting-update _ _ (λ j. refl) (λ j w. w)
  perform-is_waiting (bump parent_id) other q h =
      unfold perform in is_waiting-update _ _ (λ j. refl) (λ j w. w)

run-is_waiting :
    (k : String) (cs : List Call) (t : Jobs)
    → All (NotSubmit k) cs
    → All NotRequeue cs
    → HasIds t
    → is_waiting k t ≡ false
    → (is_waiting k (run cs t) ≡ false) × HasIds (run cs t)
unfolding run
run-is_waiting k [] t n q h idle = (idle, h)
run-is_waiting k (c ∷ cs) t n q h idle =
    run-is_waiting k cs (perform c t) n.1 q.1 (perform-HasIds t h c)
      (perform-is_waiting k t idle c n.0 q.0 h)

module _ (worker other : String) (now later : ℕ) (k : String) where
  idle_after_claim : (t : Jobs) → HasIds t → is_waiting k (try_claim worker now k t).0 ≡ false
  unfolding is_waiting
  idle_after_claim t h = elim (Option-cases (row_of k t)) [
    | inl e ↦ ground (arith, row_of-try_claim worker now k k t)
    | inr (j, e) ↦
        ground (
          arith,
          row_of-try_claim worker now k k t,
          by_key_sound (λ x. x.id) k t j e,
          eq_iff j.id k,
        )
  ]

  -- After a claim of a job, and any calls among which none requeues and none submits its id anew, a
  -- claim of that job by anybody meets no row.
  pub claim_excludes :
      (cs : List Call) (t : Jobs)
      → All (NotSubmit k) cs
      → All NotRequeue cs
      → HasIds t
      → (try_claim other later k (run cs (try_claim worker now k t).0)).1 ≡ 0
  claim_excludes cs t n q h =
      let (idle, ids) =
        run-is_waiting k cs (try_claim worker now k t).0 n q (HasIds-try_claim worker now k t h)
          (idle_after_claim t h) in
      unfold is_waiting in
      ground
        (arith, rowcount-try_claim other later k (run cs (try_claim worker now k t).0) ids, idle)
