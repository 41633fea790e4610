-- ===== src/JobStore/Frame.antt =====
-- What the calls on the job table leave alone: the primary key, and rows seen through it.
use smdr.Table.Keys.{IsKeyed-update, IsKeyed-append, IsKeyed-delete}
use smdr.JobStore.Lifecycle.{close_parent, update_payload, add_error, is_complete}
use smdr.Json.{Json, JsonDict}
use smdr.JobStore.Rows.{Jobs, NewJob, row_of, new_row}
use smdr.Prelude.{refl, String, ℕ, Option-cases, inl, ◌≡◌, subst, ◌⊎◌, inr, sym, Bool-cases, arith}
use smdr.JobStore.Claims.{HasIds}
use smdr.JobStore.Trace.{
  Call, perform, submit, report, settle, claim, beat, finish, give_up, set_payload, bump, requeue,
  clean,
}

-- A call that settles a parent closes it or changes nothing.
pub settle-cases :
    (parent_id : String) (now : ℕ) (t : Jobs)
    → (perform (settle parent_id now) t ≡ t)
      ⊎ (perform (settle parent_id now) t ≡ close_parent parent_id now t)
unfolding perform
settle-cases parent_id now t = elim (Option-cases (row_of parent_id t)) [
  | inl e ↦ inl (ground arith)
  | inr (j, e) ↦ elim (Bool-cases (is_complete j)) [
    | inl y ↦ inr (ground arith)
    | inr n ↦ inl (ground arith)
  ]
]

-- A call that reports an error writes a payload or changes nothing.
pub report-cases :
    (parent_id : String) (entry : Json) (t : Jobs)
    → (perform (report parent_id entry) t ≡ t)
      ⊎ ((payload : JsonDict) × (perform (report parent_id entry) t
            ≡ update_payload parent_id payload t))
unfolding perform
report-cases parent_id entry t = elim (Option-cases (row_of parent_id t)) [
  | inl e ↦ inl (ground arith)
  | inr (j, e) ↦ elim (Option-cases (add_error j.payload entry)) [
    | inl n ↦ inl (ground arith)
    | inr (payload, y) ↦ inr (payload, ground arith)
  ]
]

module _ (t : Jobs) (h : HasIds t) where
  submit-HasIds :
      (job_id : String) (now : ℕ) (n : NewJob) → HasIds (perform (submit job_id now n) t)
  unfolding perform
  submit-HasIds job_id now n = elim (Option-cases (row_of job_id t)) [
    | inl e ↦
        subst HasIds (sym (ground arith))
          (IsKeyed-append (λ j. j.id) (new_row job_id now n) t (unfold new_row in e) h)
    | inr (j, e) ↦ subst HasIds (sym (ground arith)) h
  ]

  close_parent-HasIds : (parent_id : String) (now : ℕ) → HasIds (close_parent parent_id now t)
  unfolding close_parent
  close_parent-HasIds parent_id now = IsKeyed-update (λ j. j.id) _ _ (λ j. refl) t h

  update_payload-HasIds :
      (parent_id : String) (payload : JsonDict) → HasIds (update_payload parent_id payload t)
  unfolding update_payload
  update_payload-HasIds parent_id payload = IsKeyed-update (λ j. j.id) _ _ (λ j. refl) t h

  -- Every call keeps the primary key.
  pub perform-HasIds : (c : Call) → HasIds (perform c t)
  perform-HasIds (submit job_id now n) = submit-HasIds job_id now n
  perform-HasIds (settle parent_id now) = elim (settle-cases parent_id now t) [
    | inl e ↦ subst HasIds (sym e) h
    | inr e ↦ subst HasIds (sym e) (close_parent-HasIds parent_id now)
  ]
  perform-HasIds (report parent_id entry) = elim (report-cases parent_id entry t) [
    | inl e ↦ subst HasIds (sym e) h
    | inr (payload, e) ↦ subst HasIds (sym e) (update_payload-HasIds parent_id payload)
  ]
  perform-HasIds (claim worker now job_id) =
      unfold perform in IsKeyed-update (λ j. j.id) _ _ (λ j. refl) t h
  perform-HasIds (beat worker now) =
      unfold perform in IsKeyed-update (λ j. j.id) _ _ (λ j. refl) t h
  perform-HasIds (finish job_id result now) =
      unfold perform in IsKeyed-update (λ j. j.id) _ _ (λ j. refl) t h
  perform-HasIds (give_up job_id message now) =
      unfold perform in IsKeyed-update (λ j. j.id) _ _ (λ j. refl) t h
  perform-HasIds (set_payload job_id payload) =
      unfold perform in update_payload-HasIds job_id payload
  perform-HasIds (bump parent_id) = unfold perform in IsKeyed-update (λ j. j.id) _ _ (λ j. refl) t h
  perform-HasIds (requeue now) = unfold perform in IsKeyed-update (λ j. j.id) _ _ (λ j. refl) t h
  perform-HasIds (clean now) = unfold perform in IsKeyed-delete (λ j. j.id) _ t h
