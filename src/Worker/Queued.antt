-- ===== src/Worker/Queued.antt =====
-- How the steps of app/worker_loop.py move the number of queued jobs.
use mathlib.Core.List.{[]}
use smdr.Prelude.{
  ℕ, ◌+◌, ◌≤◌, ◌<◌, String, ◌≡◌, inl, arith, some, inr, subst, Option-cases, refl, sym, eq_refl,
  none, ◌∙◌, ◌⊎◌, ap, coalesce,
}
use smdr.Json.{Json, JsonDict}
use smdr.Table.{count, first}
use smdr.Table.Rows.{Memᴰ-select, count-pos, count-zero_iff}
use smdr.Table.Members.{first-none_at}
use smdr.Table.Order.{least-mem}
use smdr.Table.Counts.{count-update-le, count-update_out}
use smdr.JobStore.Rows.{Job, Jobs, JobDict, is_queued, row_of, has_id, row_to_dict}
use smdr.JobStore.Queue.{
  claim_next, claim_round, next_queued, try_claim, is_claimable, claimed, get, undisturbed,
}
use smdr.JobStore.Lifecycle.{
  bump_parent_done, bump_done, settle_parent, close_parent, append_parent_error, update_payload,
  fail,
}
use smdr.JobStore.Claims.{row_of-try_claim, next_queued-none, claim_round-empty}
use smdr.JobStore.Trace.{perform}
use smdr.JobStore.Frame.{settle-cases, report-cases}

unfoldable pub queued_count : Jobs → ℕ
queued_count t = count (λ j. is_queued j.status) t

-- ---- the calls that end a job
update_payload-le :
    (k : String) (d : JsonDict) (t : Jobs) → queued_count (update_payload k d t) ≤ queued_count t
unfolding queued_count update_payload
update_payload-le k d t = count-update-le _ _ _ (λ a e h. h) t

pub fail-le :
    (k message : String) (now : ℕ) (t : Jobs) → queued_count (fail k message now t) ≤ queued_count t
unfolding queued_count fail
fail-le k message now t = count-update-le _ _ _ (λ a e h. cc) t

bump_done-le : (k : String) (t : Jobs) → queued_count (bump_done k t) ≤ queued_count t
unfolding queued_count bump_done
bump_done-le k t = count-update-le _ _ _ (λ a e h. h) t

close_parent-le :
    (k : String) (now : ℕ) (t : Jobs) → queued_count (close_parent k now t) ≤ queued_count t
unfolding queued_count close_parent
close_parent-le k now t = count-update-le _ _ _ (λ a e h. cc) t

settle_parent-le :
    (k : String) (now : ℕ) (t : Jobs) → queued_count (settle_parent k now t).1 ≤ queued_count t
unfolding perform
settle_parent-le k now t = elim (settle-cases k now t) [
  | inl e ↦ subst (λ u. queued_count u ≤ queued_count t) (sym e) (omega arith)
  | inr e ↦ subst (λ u. queued_count u ≤ queued_count t) (sym e) (close_parent-le k now t)
]

pub bump_parent_done-le :
    (k : String) (now : ℕ) (t : Jobs) → queued_count (bump_parent_done k now t).1 ≤ queued_count t
unfolding bump_parent_done
bump_parent_done-le k now t =
    omega (arith, settle_parent-le k now (bump_done k t), bump_done-le k t)

pub append_parent_error-le :
    (k : String) (entry : Json) (t t' : Jobs)
    → append_parent_error k entry t ≡ some t'
    → queued_count t' ≤ queued_count t
unfolding perform
append_parent_error-le k entry t t' e = elim (report-cases k entry t) [
  | inl q ↦
      subst (λ u. queued_count u ≤ queued_count t) (sym q ∙ ap (λ o. coalesce o t) e) (omega arith)
  | inr (d, q) ↦
      subst (λ u. queued_count u ≤ queued_count t) (sym q ∙ ap (λ o. coalesce o t) e)
        (update_payload-le k d t)
]

-- ---- a claim
module _ (worker : String) (now : ℕ) where
  try_claim-count :
      (k : String) (t : Jobs)
      → queued_count (try_claim worker now k t).0 + (try_claim worker now k t).1 ≡ queued_count t
  unfolding queued_count try_claim
  try_claim-count k t =
      count-update_out (λ j. is_queued j.status) (is_claimable k) (claimed worker now)
        (λ a e. (ground (arith, e), refl)) t

  next_queued-claimable :
      (t : Jobs) (j : Job) → next_queued t ≡ some j → 0 < count (is_claimable j.id) t
  unfolding next_queued
  next_queued-claimable t j e =
      let (m, q) = Memᴰ-select (λ i. is_queued i.status) t (least-mem _ _ j e) in
      elim (Option-cases (first (is_claimable j.id) t)) [
        | inl n ↦ ground (arith, first-none_at (is_claimable j.id) t n m, q, eq_refl j.id)
        | inr (i, s) ↦ count-pos (is_claimable j.id) t i s
      ]

  try_claim-won :
      (t : Jobs) (j : Job) → next_queued t ≡ some j → 0 < (try_claim worker now j.id t).1
  unfolding try_claim
  try_claim-won t j e = next_queued-claimable t j e

  queued_count-zero : (t : Jobs) → first (λ j. is_queued j.status) t ≡ none → queued_count t ≡ 0
  unfolding queued_count
  queued_count-zero t e = count-zero_iff (λ j. is_queued j.status) t e

  next_queued-row_of :
      (t : Jobs) (j : Job) → next_queued t ≡ some j → (i : Job) × (row_of j.id t ≡ some i)
  unfolding next_queued
  next_queued-row_of t j e =
      let (m, q) = Memᴰ-select (λ i. is_queued i.status) t (least-mem _ _ j e) in
      elim (Option-cases (row_of j.id t)) [
        | inl n ↦ ground (arith, first-none_at (has_id j.id) t n m, eq_refl j.id)
        | inr found ↦ found
      ]

  claim_next-won :
      (t : Jobs) (j : Job)
      → next_queued t ≡ some j
      → claim_next worker now [] t
        ≡ (get j.id (try_claim worker now j.id t).0, (try_claim worker now j.id t).0)
  unfolding claim_next claim_round try_claim
  claim_next-won t j e = ground (arith, next_queued-claimable t j e, e)

  claim_next-empty : (t : Jobs) → next_queued t ≡ none → claim_next worker now [] t ≡ (none, t)
  unfolding claim_next
  claim_next-empty t e = rw (claim_round-empty worker now undisturbed t e) refl

  get-claimed :
      (t : Jobs) (j : Job)
      → next_queued t ≡ some j
      → (d : JobDict) × (get j.id (try_claim worker now j.id t).0 ≡ some d)
  unfolding get
  get-claimed t j e =
      let (i, found) = next_queued-row_of t j e in
      elim (Option-cases (row_of j.id (try_claim worker now j.id t).0)) [
        | inl n ↦ ground (arith, row_of-try_claim worker now j.id j.id t, found, n)
        | inr (k, r) ↦ (row_to_dict k, ground (arith, r))
      ]

  -- A claim that finds a job takes one job off the queue; one that finds none leaves an empty queue as it
  -- is.
  pub claim_next-queued :
      (t : Jobs)
      → (((claim_next worker now [] t).0 ≡ none)
          × (queued_count (claim_next worker now [] t).1 ≡ 0))
        ⊎ ((d : JobDict) × ((claim_next worker now [] t).0 ≡ some d)
            × (queued_count (claim_next worker now [] t).1 < queued_count t))
  claim_next-queued t = elim (Option-cases (next_queued t)) [
    | inl e ↦
        inl
          (rw (claim_next-empty t e) (refl, queued_count-zero t (next_queued-none worker now t e)))
    | inr (j, e) ↦
        let (d, g) = get-claimed t j e in
        inr (
          d,
          rw (claim_next-won t j e) g,
          rw (claim_next-won t j e) (omega (arith, try_claim-count j.id t, try_claim-won t j e)),
        )
  ]
