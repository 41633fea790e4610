-- ===== src/JobStore/Parents.antt =====
-- The parents of a reprocess-all in app/jobstore.py: `bump_parent_done`, once for each child.
use smdr.Table.Keys.{by_key-update, by_key_sound}
use smdr.JobStore.Rows.{Job, Jobs, row_of, done, running, is_running, has_id}
use smdr.JobStore.Lifecycle.{bump_parent_done, is_complete, bump_done, close_parent, settle_parent}
use smdr.Prelude.{
  refl, String, ℕ, List, ◌∷◌, coalesce, ◌+◌, ◌≡◌, [], some, if◌then◌else◌, leb, arith, length,
  subst, Bool-cases, true, inl, inr, ◌&&◌, eq_iff,
}

module _ (k : String) (now : ℕ) (t : Jobs) (j : Job) (e : row_of k t ≡ some j) where
  pub row_of-bump_done :
      row_of k (bump_done k t) ≡ some (record j { done_count = some (coalesce j.done_count 0 + 1) })
  unfolding bump_done
  row_of-bump_done = ground (
    arith,
    by_key-update (λ i. i.id) (has_id k)
        (λ i. record i { done_count = some (coalesce i.done_count 0 + 1) }) (λ i. refl) k t,
    by_key_sound (λ i. i.id) k t j e,
    eq_iff j.id k,
  )

  row_of-close_parent :
      is_running j.status ≡ true
      → row_of k (close_parent k now t) ≡ some (record j { status = done; completed_at = some now })
  unfolding close_parent
  row_of-close_parent r = ground (
    arith,
    by_key-update (λ i. i.id) (λ i. has_id k i && is_running i.status)
        (λ i. record i { status = done; completed_at = some now }) (λ i. refl) k t,
    by_key_sound (λ i. i.id) k t j e,
    eq_iff j.id k,
  )

-- The parent's row after the reads that follow a bump.
unfoldable pub settled : ℕ → Job → Job
settled now j = if is_complete j then record j { status = done; completed_at = some now } else j

pub row_of-settle_parent :
    (k : String) (now : ℕ) (t : Jobs) (j : Job)
    → row_of k t ≡ some j
    → row_of k (settle_parent k now t).1 ≡ some (settled now j)
unfolding settle_parent settled
row_of-settle_parent k now t j e = elim (Bool-cases (is_complete j)) [
  | inl y ↦ ground (arith, row_of-close_parent k now t j e)
  | inr n ↦ ground arith
]

-- The bumps of the children that end at the given times.
unfoldable pub bump_all : String → List ℕ → Jobs → Jobs
bump_all k [] t = t
bump_all k (now ∷ times) t = bump_all k times (bump_parent_done k now t).1

-- A parent's row after `d` of its `n` children: closed exactly if all are done.
pub record IsAt (n d : ℕ) (j : Job) : Type 0 where
  pub total : j.total ≡ some n
  pub counted : j.done_count ≡ some d
  pub state : j.status ≡ (if leb n d then done else running)

pub settled-IsAt :
    (now n d : ℕ) (j : Job)
    → IsAt n d j
    → IsAt n (d + 1) (settled now (record j { done_count = some (coalesce j.done_count 0 + 1) }))
unfolding settled is_complete
settled-IsAt now n d j h = ground arith

-- From a parent with `d` of `n` children done, one bump for each of the given times counts each child
-- once: the parent is closed exactly if the children then done are all `n`, however late the last comes.
pub bump_all-IsAt :
    (k : String) (times : List ℕ) (t : Jobs) (n d : ℕ) (j : Job)
    → row_of k t ≡ some j
    → IsAt n d j
    → (j' : Job) × (row_of k (bump_all k times t) ≡ some j') × IsAt n (d + length times) j'
unfolding bump_all bump_parent_done
bump_all-IsAt k [] t n d j e h = (j, e, subst (λ m. IsAt n m j) (omega arith) h)
bump_all-IsAt k (now ∷ times) t n d j e h =
    let b : Job = record j { done_count = some (coalesce j.done_count 0 + 1) } in
    let at : row_of k (settle_parent k now (bump_done k t)).1 ≡ some (settled now b) =
      row_of-settle_parent k now (bump_done k t) b (row_of-bump_done k now t j e) in
    let (j', e', h') =
      bump_all-IsAt k times (settle_parent k now (bump_done k t)).1 n (d + 1) (settled now b) at
        (settled-IsAt now n d j h) in
    (j', e', subst (λ m. IsAt n m j') (omega arith) h')
