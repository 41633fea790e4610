-- ===== src/JobStore/Attempts.antt =====
-- How often a job is started, over all replicas and workers.
use smdr.JobStore.Lifecycle.{close_parent, update_payload, is_expired}
use smdr.JobStore.Frame.{perform-HasIds, settle-cases, report-cases}
use smdr.Table.Keys.{by_key-delete, by_key-update, by_key_sound}
use smdr.Table.Rows.{first-append, All-first}
use smdr.JobStore.Queue.{try_claim, is_beaten}
use smdr.JobStore.Invariant.{IsSound, perform-IsSound}
use smdr.Table.{first, update, delete}
use smdr.JobStore.Rows.{Jobs, Job, NewJob, row_of, new_row, max_attempts}
use smdr.Prelude.{
  refl, String, List, same, ℕ, All, ◌∷◌, ◌≡◌, Bool, if◌then◌else◌, false, ◌+◌, [], ◌≤◌, arith,
  Option-cases, inl, inr, eq_iff, none, some, ◌-◌,
}
use smdr.JobStore.Claims.{HasIds, row_of-try_claim, rowcount-try_claim}
use smdr.JobStore.Trace.{
  Call, perform, submit, claim, settle, report, clean, beat, requeue, finish, give_up, set_payload,
  bump,
}

-- The rows that a call claims for the job `k`: the rowcount of its UPDATE.
unfoldable pub starts_of : String → Call → Jobs → ℕ
starts_of k (claim worker now job_id) t =
    if same job_id k then (try_claim worker now job_id t).1 else 0
starts_of k _ t = 0

-- How often the job `k` is started in a run.
unfoldable pub starts : String → List Call → Jobs → ℕ
starts k [] t = 0
starts k (c ∷ cs) t = starts_of k c t + starts k cs (perform c t)

-- `uuid.uuid4()`: no later submission takes the id `k` again.
abbrev pub NotSubmit : String → Call → Type 0
NotSubmit k (submit job_id now n) = same job_id k ≡ false
NotSubmit k _ = Unit

-- The attempts that the row of a job has left; 0 if it is gone.
budget : String → Jobs → ℕ
budget k t = elim (row_of k t) [ none ↦ 0 | some j ↦ max_attempts - j.attempts ]

module _ (k : String) (t : Jobs) where
  budget-update :
      (p : Job → Bool) (f : Job → Job)
      → ((j : Job) → (f j).id ≡ j.id)
      → ((j : Job) → (f j).attempts ≡ j.attempts)
      → budget k (update p f t) ≡ budget k t
  unfolding budget
  budget-update p f ids keeps = elim (Option-cases (row_of k t)) [
    | inl e ↦ ground (arith, by_key-update (λ j. j.id) p f ids k t)
    | inr (j, e) ↦ ground (arith, by_key-update (λ j. j.id) p f ids k t, keeps j)
  ]

  -- The form in which a call that starts nothing needs it.
  budget-idle :
      (p : Job → Bool) (f : Job → Job)
      → ((j : Job) → (f j).id ≡ j.id)
      → ((j : Job) → (f j).attempts ≡ j.attempts)
      → 0 + budget k (update p f t) ≤ budget k t
  budget-idle p f ids keeps = omega (arith, budget-update p f ids keeps)

  budget-delete : (p : Job → Bool) → HasIds t → budget k (delete p t) ≤ budget k t
  unfolding budget
  budget-delete p h = ground (arith, by_key-delete (λ j. j.id) p k t h)

  budget-submit :
      (job_id : String) (now : ℕ) (n : NewJob)
      → same job_id k ≡ false
      → budget k (perform (submit job_id now n) t) ≡ budget k t
  unfolding perform budget first
  budget-submit job_id now n other =
      ground (arith, first-append (λ j. same j.id k) t (new_row job_id now n ∷ []))

  budget-claim :
      (worker : String) (now : ℕ) (job_id : String)
      → HasIds t
      → All IsSound t
      → starts_of k (claim worker now job_id) t + budget k (perform (claim worker now job_id) t)
        ≤ budget k t
  unfolding budget starts_of perform
  budget-claim worker now job_id h sound = elim (Option-cases (row_of k t)) [
    | inl e ↦ ground (
      arith,
      row_of-try_claim worker now job_id k t,
      rowcount-try_claim worker now job_id t h,
      eq_iff job_id k,
    )
    | inr (j, e) ↦ ground (
      arith,
      row_of-try_claim worker now job_id k t,
      rowcount-try_claim worker now job_id t h,
      eq_iff job_id k,
      eq_iff j.id job_id,
      by_key_sound (λ x. x.id) k t j e,
      All-first IsSound (λ x. same x.id k) t sound e,
    )
  ]

-- A call that starts the job uses up an attempt, and no call gives one back.
perform-budget :
    (k : String) (c : Call) (t : Jobs)
    → NotSubmit k c
    → HasIds t
    → All IsSound t
    → starts_of k c t + budget k (perform c t) ≤ budget k t
unfolding starts_of
perform-budget k (submit job_id now n) t other h s =
    omega (arith, budget-submit k t job_id now n other)
perform-budget k (claim worker now job_id) t other h s = budget-claim k t worker now job_id h s
perform-budget k (settle parent_id now) t other h s = elim (settle-cases parent_id now t) [
  | inl e ↦ rw e (omega arith)
  | inr e ↦ rw e (unfold close_parent in budget-idle k t _ _ (λ j. refl) (λ j. refl))
]
perform-budget k (report parent_id entry) t other h s = elim (report-cases parent_id entry t) [
  | inl e ↦ rw e (omega arith)
  | inr (payload, e) ↦ rw e (unfold update_payload in budget-idle k t _ _ (λ j. refl) (λ j. refl))
]
perform-budget k (clean now) t other h s =
    unfold perform in omega (arith, budget-delete k t (is_expired now) h)
perform-budget k (beat worker now) t other h s =
    unfold perform in
    omega (
      arith,
      budget-update k t (is_beaten worker) (λ j. record j { heartbeat_at = some now }) (λ j. refl)
          (λ j. refl),
    )
perform-budget k (requeue now) t other h s =
    unfold perform in budget-idle k t _ _ (λ j. refl) (λ j. refl)
perform-budget k (finish job_id result now) t other h s =
    unfold perform in budget-idle k t _ _ (λ j. refl) (λ j. refl)
perform-budget k (give_up job_id message now) t other h s =
    unfold perform in budget-idle k t _ _ (λ j. refl) (λ j. refl)
perform-budget k (set_payload job_id payload) t other h s =
    unfold perform update_payload in budget-idle k t _ _ (λ j. refl) (λ j. refl)
perform-budget k (bump parent_id) t other h s =
    unfold perform in budget-idle k t _ _ (λ j. refl) (λ j. refl)

starts-le-budget :
    (k : String) (cs : List Call) (t : Jobs)
    → All (NotSubmit k) cs
    → HasIds t
    → All IsSound t
    → starts k cs t ≤ budget k t
unfolding starts
starts-le-budget k [] t n h s = omega arith
starts-le-budget k (c ∷ cs) t n h s = omega (
  arith,
  perform-budget k c t n.0 h s,
  starts-le-budget k cs (perform c t) n.1 (perform-HasIds t h c) (perform-IsSound t s c),
)

budget-le : (k : String) (t : Jobs) → budget k t ≤ max_attempts
unfolding budget
budget-le k t = ground arith

-- In a table whose ids are unique and whose rows are sound (as every reachable table is), a job is
-- started at most three times in any further run that does not submit its id anew, whatever the
-- interleaving of claims, heartbeats, completions and requeues.
pub starts-le-max_attempts :
    (k : String) (cs : List Call) (t : Jobs)
    → All (NotSubmit k) cs
    → HasIds t
    → All IsSound t
    → starts k cs t ≤ max_attempts
starts-le-max_attempts k cs t n h s = omega (arith, starts-le-budget k cs t n h s, budget-le k t)
