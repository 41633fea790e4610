-- ===== src/JobStore/Samples.antt =====
-- Runs of the job table of app/jobstore.py on small tables.
use smdr.JobStore.Exclusion.{claim_excludes}
use smdr.JobStore.Invariant.{run-IsSound}
use smdr.JobStore.Upkeep.{
  heartbeat_protects, done_parent_stays, prune-exact, requeue_stale-partition, is_past_retention,
  is_stalled, put_back,
}
use smdr.JobStore.Parents.{IsAt, bump_all, bump_all-IsAt}
use smdr.JobStore.Claims.{HasIds, HasIds-try_claim, claim_next-fifo}
use smdr.JobStore.Lifecycle.{requeue_stale, prune, stale_exhausted, is_silent, is_exhausted}
use smdr.Table.{select, first, update, count}
use smdr.JobStore.Attempts.{starts, starts_of, starts-le-max_attempts}
use smdr.JobStore.Races.{IsClaimOf, IsFair, claim_next-IsClaimOf}
use smdr.JobStore.Rows.{
  new_row, Job, Jobs, row_of, Status, queued, done, is_queued, running, NewJob, row_to_dict,
}
use smdr.JobStore.Trace.{run, perform, Call, beat, claim, submit, requeue, settle, finish}
use smdr.JobStore.Queue.{insert, Round, try_claim, claim_next, claimed, heartbeat}
use smdr.Prelude.{
  refl, List, All, Option, ◌≡◌, ◌≤◌, [], subst, some, ◌∷◌, ◌++◌, ℕ, none, ◌⊎◌, length, true, arith,
  ◌+◌, String, if◌then◌else◌, same, not, map,
}
use smdr.JobStore.Invariant.{IsSound}

abbrev new_job : Status → Option ℕ → NewJob
new_job status total = record {
  kind = "preprocess";
  payload = [];
  version_id = some "v";
  file_id = some "f";
  product_id = none;
  parent_id = none;
  total = total;
  done_count = some 0;
  status = status;
  submitted_by = none;
}

-- Three submissions: b and a wait, b since earlier, and p is a parent of two children.
abbrev submissions : List Call
submissions =
    submit "b" 10 (new_job queued none)
    ∷ submit "a" 20 (new_job queued none)
    ∷ submit "p" 5 (new_job running (some 2))
    ∷ []

abbrev table : Jobs
table =
    new_row "b" 10 (new_job queued none)
    ∷ new_row "a" 20 (new_job queued none)
    ∷ new_row "p" 5 (new_job running (some 2))
    ∷ []

run-submissions : run submissions [] ≡ table
unfolding run perform new_row first
run-submissions = refl

table-HasIds : HasIds table
unfolding new_row first
table-HasIds = (refl, (refl, (refl, tt)))

table-IsSound : All IsSound table
table-IsSound = subst (All IsSound) run-submissions (run-IsSound submissions)

run-IsSound_example : All IsSound (run submissions [])
run-IsSound_example = run-IsSound submissions

abbrev busy : List Call
busy = claim "w" 100 "b" ∷ requeue 500 ∷ claim "w" 501 "b" ∷ finish "b" none 510 ∷ []

starts_twice : starts "b" busy table ≡ 2
unfolding starts starts_of perform try_claim new_row first update count
starts_twice = refl

starts-le-max_attempts_example : starts "b" busy table ≤ 3
starts-le-max_attempts_example =
    starts-le-max_attempts "b" busy table (tt, (tt, (tt, (tt, tt)))) table-HasIds table-IsSound

claim_excludes_example :
    (try_claim "w2" 130 "b"
      (run (beat "w" 120 ∷ settle "p" 125 ∷ []) (try_claim "w" 100 "b" table).0)).1
    ≡ 0
claim_excludes_example =
    claim_excludes "w" "w2" 100 130 "b" (beat "w" 120 ∷ settle "p" 125 ∷ []) table (tt, (tt, tt))
      (tt, (tt, tt)) table-HasIds

claim_next-fifo_example :
    ((first (λ i. is_queued i.status) table ≡ none) × (claim_next "w" 100 [] table ≡ (none, table)))
    ⊎ ((j : Job) × (row_of j.id table ≡ some j)
        × (is_queued j.status ≡ true)
        × All (λ i. j.submitted_at ≤ i.submitted_at) (select (λ i. is_queued i.status) table)
        × ((claim_next "w" 100 [] table).0 ≡ some (row_to_dict (claimed "w" 100 j)))
        × ((k : String)
            → row_of k (claim_next "w" 100 [] table).1
              ≡ (if same j.id k then some (claimed "w" 100 j) else row_of k table)))
claim_next-fifo_example = claim_next-fifo "w" 100 table table-HasIds

-- Another replica claims "b" between the SELECT and the UPDATE.
abbrev raced : Round
raced = record { before_update = λ t. (try_claim "w2" 99 "b" t).0; before_get = λ t. t }

raced-IsFair : IsFair raced
raced-IsFair = record {
  ids_kept = λ t h. HasIds-try_claim "w2" 99 "b" t h;
  read_at_once = λ t. refl;
}

claim_next-IsClaimOf_example : IsClaimOf "w" 100 (claim_next "w" 100 (raced ∷ []) table)
claim_next-IsClaimOf_example =
    claim_next-IsClaimOf "w" 100 (raced ∷ []) table (raced-IsFair, tt) table-HasIds

-- A job that is silent with attempts left, one without, one that was just heard of, and two that ended.
abbrev worn : Jobs
worn =
    claimed "w" 100 (new_row "b" 10 (new_job queued none))
    ∷ record (claimed "w" 100 (new_row "a" 20 (new_job queued none))) { attempts = 3 }
    ∷ claimed "w" 450 (new_row "c" 30 (new_job queued none))
    ∷ record (new_row "d" 1 (new_job done none)) { completed_at = some 20 }
    ∷ record (new_row "e" 2 (new_job done none)) { completed_at = some 400_000 }
    ∷ []

requeue_stale-partition_example :
    ((requeue_stale 500 worn).0 ≡ map (λ j. if is_stalled 500 j then put_back j else j) worn)
    × ((requeue_stale 500 worn).1 ≡ length (select (is_stalled 500) worn))
    × (stale_exhausted 500 (requeue_stale 500 worn).0 ≡ stale_exhausted 500 worn)
    × (select (is_silent 500) (requeue_stale 500 worn).0 ≡ select (is_exhausted 500) worn)
requeue_stale-partition_example = requeue_stale-partition 500 worn

one_stalled : (requeue_stale 500 worn).1 ≡ 1
unfolding requeue_stale count new_row
one_stalled = refl

abbrev b_claimed : Job
b_claimed = claimed "w" 100 (new_row "b" 10 (new_job queued none))

b_is_claimed : row_of "b" (run (claim "w" 100 "b" ∷ []) table) ≡ some b_claimed
unfolding run perform try_claim new_row first update
b_is_claimed = refl

heartbeat_protects_example :
    row_of "b" (requeue_stale 250 (heartbeat "w" 130 (run (claim "w" 100 "b" ∷ []) table)).0).0
    ≡ some (record b_claimed { heartbeat_at = some 130 })
heartbeat_protects_example =
    heartbeat_protects "w" 130 250 "b" (run (claim "w" 100 "b" ∷ []) table) b_claimed b_is_claimed
      refl (omega arith)

prune-exact_example :
    ((prune 900_000 worn).0 ≡ select (λ j. not (is_past_retention 900_000 j)) worn)
    × (length (prune 900_000 worn).0 + (prune 900_000 worn).1 ≡ length worn)
prune-exact_example = prune-exact 900_000 worn

one_expired : (prune 900_000 worn).1 ≡ 1
unfolding prune count new_row
one_expired = refl

empty_parent :
    insert "q" 30 (new_job done (some 0)) table
    ≡ some (table ++ new_row "q" 30 (new_job done (some 0)) ∷ [])
unfolding insert new_row first
empty_parent = refl

done_parent_stays_example :
    row_of "q" (prune 9_000_000 (table ++ new_row "q" 30 (new_job done (some 0)) ∷ [])).0
    ≡ some (new_row "q" 30 (new_job done (some 0)))
done_parent_stays_example =
    done_parent_stays "q" 30 9_000_000 (new_job done (some 0)) table _ refl table-HasIds
      empty_parent

abbrev parent : Job
parent = new_row "p" 5 (new_job running (some 2))

parent-IsAt : IsAt 2 0 parent
unfolding new_row
parent-IsAt = record { total = refl; counted = refl; state = refl }

parent_there : row_of "p" table ≡ some parent
unfolding new_row first
parent_there = refl

bump_all-IsAt_example :
    (j' : Job) × (row_of "p" (bump_all "p" (200 ∷ 300 ∷ []) table) ≡ some j') × IsAt 2 2 j'
bump_all-IsAt_example = bump_all-IsAt "p" (200 ∷ 300 ∷ []) table 2 0 parent parent_there parent-IsAt
