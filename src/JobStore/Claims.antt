-- ===== src/JobStore/Claims.antt =====
-- The claim protocol of app/jobstore.py: what one claim does, and the loop of `claim_next` under the
-- interference of other replicas.
use smdr.Table.Order.{least-mem, least-le, least-none}
use smdr.Table.Rows.{first-select_nil, Memᴰ-select}
use smdr.Table.{first, select}
use smdr.Prelude.{
  refl, ℕ, String, ◌≡◌, some, none, true, if◌then◌else◌, All, ◌≤◌, [], arith, ◌⊎◌, eq_refl, same,
  Option-cases, inl, inr, Bool-cases, eq_iff,
}
use smdr.Table.Keys.{IsKeyed, by_key-update, by_key-mem, by_key_sound, IsKeyed-update, count-by_key}
use smdr.JobStore.Rows.{Job, Jobs, row_of, is_queued, row_to_dict}
use smdr.JobStore.Queue.{
  try_claim, claimed, is_claimable, claim_next, claim_round, next_queued, get, undisturbed, Round,
}

-- No two rows have one id: the primary key.
abbrev pub HasIds : Jobs → Type 0
HasIds t = IsKeyed (λ j. j.id) t

module _ (worker : String) (now : ℕ) where
  -- The claim's UPDATE, seen through the primary key.
  pub row_of-try_claim :
      (job_id k : String) (t : Jobs)
      → row_of k (try_claim worker now job_id t).0 ≡ (elim (row_of k t) [
        | none ↦ none
        | some j ↦ some (if is_claimable job_id j then claimed worker now j else j)
      ])
  unfolding try_claim
  row_of-try_claim job_id k t =
      by_key-update (λ j. j.id) (is_claimable job_id) (claimed worker now) (λ j. refl) k t

  pub HasIds-try_claim :
      (job_id : String) (t : Jobs) → HasIds t → HasIds (try_claim worker now job_id t).0
  unfolding try_claim
  HasIds-try_claim job_id t h =
      IsKeyed-update (λ j. j.id) (is_claimable job_id) (claimed worker now) (λ j. refl) t h

  pub next_queued-none :
      (t : Jobs) → next_queued t ≡ none → first (λ j. is_queued j.status) t ≡ none
  unfolding next_queued
  next_queued-none t h = first-select_nil _ t (least-none _ _ h)

  pub next_queued-some :
      (t : Jobs) (j : Job)
      → HasIds t
      → next_queued t ≡ some j
      → (row_of j.id t ≡ some j)
        × (is_queued j.status ≡ true)
        × All (λ i. j.submitted_at ≤ i.submitted_at) (select (λ i. is_queued i.status) t)
  unfolding next_queued
  next_queued-some t j h e =
      let (m, q) = Memᴰ-select (λ i. is_queued i.status) t (least-mem _ _ j e) in
      (by_key-mem (λ i. i.id) t h m, q, least-le (λ i. i.submitted_at) _ j e)

  -- The rowcount of a claim is 1 if the row of that id is queued, and 0 if not.
  pub rowcount-try_claim :
      (job_id : String) (t : Jobs)
      → HasIds t
      → (try_claim worker now job_id t).1
        ≡ (elim (row_of job_id t) [ none ↦ 0 | some j ↦ if is_queued j.status then 1 else 0 ])
  unfolding try_claim
  rowcount-try_claim job_id t h = count-by_key (λ j. j.id) (λ j. is_queued j.status) job_id t h

module _ (worker : String) (now : ℕ) where
  get-try_claim :
      (j : Job) (t : Jobs)
      → HasIds t
      → row_of j.id t ≡ some j
      → is_queued j.status ≡ true
      → get j.id (try_claim worker now j.id t).0 ≡ some (row_to_dict (claimed worker now j))
  unfolding get
  get-try_claim j t h e q = ground (arith, row_of-try_claim worker now j.id j.id t, eq_refl j.id)

  pub claim_round-queued :
      (j : Job) (t : Jobs)
      → HasIds t
      → next_queued t ≡ some j
      → claim_round worker now undisturbed t
        ≡ (some (some (row_to_dict (claimed worker now j))), (try_claim worker now j.id t).0)
  unfolding claim_round
  claim_round-queued j t h e =
      let (at_id, q, _) = next_queued-some worker now t j h e in
      ground (arith, rowcount-try_claim worker now j.id t h, get-try_claim j t h at_id q)

  pub claim_round-empty :
      (r : Round) (t : Jobs) → next_queued t ≡ none → claim_round worker now r t ≡ (some none, t)
  unfolding claim_round
  claim_round-empty r t e = ground arith

  row_of-claimed :
      (j : Job) (t : Jobs)
      → row_of j.id t ≡ some j
      → is_queued j.status ≡ true
      → (k : String)
      → row_of k (try_claim worker now j.id t).0
        ≡ (if same j.id k then some (claimed worker now j) else row_of k t)
  row_of-claimed j t at_id q k = elim (Bool-cases (same j.id k)) [
    | inl y ↦
        let e = (eq_iff j.id k).0 y in
        ground (arith, row_of-try_claim worker now j.id k t, eq_refl j.id)
    | inr n ↦ elim (Option-cases (row_of k t)) [
      | inl e ↦ ground (arith, row_of-try_claim worker now j.id k t)
      | inr (i, e) ↦ ground (
        arith,
        row_of-try_claim worker now j.id k t,
        by_key_sound (λ x. x.id) k t i e,
        eq_iff i.id j.id,
        eq_iff j.id k,
      )
    ]
  ]

  -- What `claim_next` does with no interference: nothing on a queue that is empty; otherwise the queued
  -- row `j` that was submitted first is marked, and no other row changes.
  pub claim_next-fifo :
      (t : Jobs)
      → HasIds t
      → ((first (λ i. is_queued i.status) t ≡ none) × (claim_next worker now [] t ≡ (none, t)))
        ⊎ ((j : Job) × (row_of j.id t ≡ some j)
            × (is_queued j.status ≡ true)
            × All (λ i. j.submitted_at ≤ i.submitted_at) (select (λ i. is_queued i.status) t)
            × ((claim_next worker now [] t).0 ≡ some (row_to_dict (claimed worker now j)))
            × ((k : String)
                → row_of k (claim_next worker now [] t).1
                  ≡ (if same j.id k then some (claimed worker now j) else row_of k t)))
  unfolding claim_next
  claim_next-fifo t h = elim (Option-cases (next_queued t)) [
    | inl e ↦ inl (next_queued-none worker now t e, rw (claim_round-empty undisturbed t e))
    | inr (j, e) ↦
        let (at_id, q, early) = next_queued-some worker now t j h e in
        inr (
          j,
          at_id,
          q,
          early,
          rw (claim_round-queued j t h e),
          λ k. rw (claim_round-queued j t h e) (row_of-claimed j t at_id q k),
        )
  ]
