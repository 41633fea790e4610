-- ===== src/JobStore/Races.antt =====
-- `claim_next` of app/jobstore.py while other replicas change the table between its statements.
use smdr.Table.Keys.{by_key_sound}
use smdr.Table.{first}
use smdr.JobStore.Rows.{Jobs, Job, JobDict, is_queued, row_of, running, row_to_dict}
use smdr.Prelude.{
  refl, String, ◌≡◌, ℕ, Option, ◌<◌, some, Option-cases, inl, arith, inr, true, List, none, All,
  ◌∷◌, eq_iff, Bool-cases, ltb, [], ltb→lt, subst, sym, false, ◌≢◌, coalesce,
}
use smdr.JobStore.Claims.{
  HasIds, rowcount-try_claim, next_queued-none, row_of-try_claim, HasIds-try_claim,
  claim_round-empty, claim_round-queued,
}
use smdr.JobStore.Queue.{
  Round, claim_next, claim_round, try_claim, get, next_queued, claimed, undisturbed,
}

-- The others may do anything to the table before the UPDATE that keeps its primary key, and have not
-- yet changed it when the claimed row is read back.
pub record IsFair (r : Round) : Type 0 where
  pub ids_kept : (t : Jobs) → HasIds t → HasIds (r.before_update t)
  pub read_at_once : (t : Jobs) → r.before_get t ≡ t

-- A call that returns nothing has seen an empty queue. A job that it returns stands in the table, is
-- running, and belongs to the caller.
abbrev pub IsClaimOf : String → ℕ → Option JobDict × Jobs → Type 0
IsClaimOf worker now (none, t) = first (λ i. is_queued i.status) t ≡ none
IsClaimOf worker now (some d, t) =
    (row_of d.row.id t ≡ some d.row)
    × (d.row.status ≡ running)
    × (d.row.claimed_by ≡ some worker)
    × (d.row.heartbeat_at ≡ some now)
    × (0 < d.row.attempts)

module _ (worker : String) (now : ℕ) where
  -- A round ends in a lost race, which keeps the primary key, or in a claim.
  abbrev RoundEnd : Option (Option JobDict) × Jobs → Type 0
  RoundEnd (none, t) = HasIds t
  RoundEnd (some out, t) = IsClaimOf worker now (out, t)

  get-of_row :
      (job_id : String) (t : Jobs) (j : Job)
      → row_of job_id t ≡ some j
      → get job_id t ≡ some (row_to_dict j)
  unfolding get
  get-of_row job_id t j e = ground arith

  won-RoundEnd :
      (job_id : String) (t : Jobs)
      → HasIds t
      → 0 < (try_claim worker now job_id t).1
      → RoundEnd
          (some (get job_id (try_claim worker now job_id t).0), (try_claim worker now job_id t).0)
  won-RoundEnd job_id t h p = elim (Option-cases (row_of job_id t)) [
    | inl e ↦ absurd (ground (arith, rowcount-try_claim worker now job_id t h))
    | inr (i, e) ↦
        let q : is_queued i.status ≡ true =
          ground (arith, rowcount-try_claim worker now job_id t h) in
        let same_id = by_key_sound (λ x. x.id) job_id t i e in
        let at_id : row_of job_id (try_claim worker now job_id t).0 ≡ some (claimed worker now i) =
          ground (arith, row_of-try_claim worker now job_id job_id t, eq_iff i.id job_id) in
        subst (λ o. RoundEnd (some o, (try_claim worker now job_id t).0))
          (sym (get-of_row job_id _ _ at_id))
          (unfold row_to_dict in
            (
              subst (λ k. row_of k (try_claim worker now job_id t).0 ≡ some (claimed worker now i))
                  (sym same_id) at_id,
              refl,
              refl,
              refl,
              omega arith,
            ))
  ]

  module _ (r : Round) (t : Jobs) (j : Job) (e : next_queued t ≡ some j) where
    claim_round-won :
        ltb 0 (try_claim worker now j.id (r.before_update t)).1 ≡ true
        → claim_round worker now r t ≡ (
          some (get j.id (r.before_get (try_claim worker now j.id (r.before_update t)).0)),
          r.before_get (try_claim worker now j.id (r.before_update t)).0,
        )
    unfolding claim_round
    claim_round-won y = ground arith

    claim_round-lost :
        ltb 0 (try_claim worker now j.id (r.before_update t)).1 ≡ false
        → claim_round worker now r t ≡ (none, (try_claim worker now j.id (r.before_update t)).0)
    unfolding claim_round
    claim_round-lost n = ground arith

  claim_round-RoundEnd :
      (r : Round) (t : Jobs) → IsFair r → HasIds t → RoundEnd (claim_round worker now r t)
  claim_round-RoundEnd r t fair h = elim (Option-cases (next_queued t)) [
    | inl e ↦ rw (claim_round-empty worker now r t e) (next_queued-none worker now t e)
    | inr (j, e) ↦ elim (Bool-cases (ltb 0 (try_claim worker now j.id (r.before_update t)).1)) [
      | inl y ↦ rw (claim_round-won r t j e y) (
          rw fair.read_at_once
            (won-RoundEnd j.id (r.before_update t) (fair.ids_kept t h) (ltb→lt _ _ y)))
      | inr n ↦
          rw (claim_round-lost r t j e n)
            (HasIds-try_claim worker now j.id (r.before_update t) (fair.ids_kept t h))
    ]
  ]

  -- A round with no interference is never lost.
  undisturbed_round : (t : Jobs) → HasIds t → (claim_round worker now undisturbed t).0 ≢ none
  undisturbed_round t h = elim (Option-cases (next_queued t)) [
    | inl e ↦ rw (claim_round-empty worker now undisturbed t e) (λ p. cc)
    | inr (j, e) ↦ rw (claim_round-queued worker now j t h e) (λ p. cc)
  ]

  last-IsClaimOf :
      (o : Option (Option JobDict)) (t : Jobs)
      → o ≢ none
      → RoundEnd (o, t)
      → IsClaimOf worker now (coalesce o none, t)
  last-IsClaimOf none t n h = absurd (n refl)
  last-IsClaimOf (some d) t n h = h

  -- Whatever the others do in fair rounds, `claim_next` ends in a claim of the caller's, or with nothing
  -- when the queue is empty at its end.
  pub claim_next-IsClaimOf :
      (rounds : List Round) (t : Jobs)
      → All IsFair rounds
      → HasIds t
      → IsClaimOf worker now (claim_next worker now rounds t)
  unfolding claim_next
  claim_next-IsClaimOf [] t fair h =
      let (o, t') = claim_round worker now undisturbed t in
      last-IsClaimOf o t' (undisturbed_round t h) (
        claim_round-RoundEnd undisturbed t
          (record { ids_kept = λ u k. k; read_at_once = λ u. refl }) h)
  claim_next-IsClaimOf (r ∷ rounds) t fair h =
      next (claim_round worker now r t).0 (claim_round worker now r t).1
        (λ u k. claim_next-IsClaimOf rounds u fair.1 k) (claim_round-RoundEnd r t fair.0 h)
    where
      next :
          (o : Option (Option JobDict)) (t' : Jobs)
          → ((u : Jobs) → HasIds u → IsClaimOf worker now (claim_next worker now rounds u))
          → RoundEnd (o, t')
          → IsClaimOf worker now
              (elim o [ none ↦ claim_next worker now rounds t' | some d ↦ (d, t') ])
      next none t' again k = again t' k
      next (some d) t' again k = k
