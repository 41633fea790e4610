-- ===== src/Worker/Ticks.antt =====
-- `run_once` of app/worker_loop.py. The process pool is a parameter: which futures are done, and how they
-- ended, stands in the entries. A tick is one moment, no other replica comes between, and times are
-- whole seconds. A traceback's text is a parameter, as is the JSON of a result.
use smdr.Prelude.{
  ℕ, ◌+◌, suc, zero, String, Bool, true, false, ◌&&◌, not, Option, none, some, List, [], ◌∷◌, same,
  length, ltb, leb, if◌then◌else◌,
}
use smdr.Json.{Json}
use smdr.Table.{delete, select}
use smdr.JobStore.Rows.{Job, Jobs, JobDict}
use smdr.JobStore.Queue.{claim_next, heartbeat}
use smdr.JobStore.Lifecycle.{complete, fail, requeue_stale, stale_exhausted, prune}
use smdr.Auth.Store.{AuthStore}
use smdr.Auth.Sessions.{prune_sessions}
use smdr.Jobs.Stores.{Stores, JobResult}
use smdr.Jobs.Plans.{execution_plan, planned, unplanned}
use smdr.Jobs.Effects.{apply_success, apply_failure, applied, escaped, with_traceback}

-- A future, as the tick finds it.
pub data Future : Type 0 where
  pending : Future
  resolved : JobResult → Future
  broken : String → Future

abbrev pub is_done : Future → Bool
is_done pending = false
is_done _ = true

-- An item of the dict `_inflight`, by the id of its job.
pub record Entry : Type 0 where
  pub job : Job
  pub future : Future

abbrev pub is_entry_of : String → Entry → Bool
is_entry_of job_id e = same e.job.id job_id

-- The loop's fields, and the stores that it works on.
pub record Worker : Type 0 where
  pub stores : Stores
  pub auth : AuthStore
  pub inflight : List Entry
  pub last_heartbeat : ℕ
  pub last_maintenance : ℕ

abbrev pub on_table : (Jobs → Jobs) → Stores → Stores
on_table f w = record w { jobs = f w.jobs }

-- A step that returns, with whether anything happened; an exception that leaves it.
pub data Step : Type 0 where
  went : Bool → Worker → Step
  threw : Worker → Step

-- d[k] = e
unfoldable pub put_entry : Entry → List Entry → List Entry
put_entry e [] = e ∷ []
put_entry e (f ∷ fs) =
    let rest = put_entry e fs in if is_entry_of e.job.id f then e ∷ fs else f ∷ rest

module _ (is_close : ℕ → ℕ → Bool) (delete_blob : String → List String → Option (List String))
    (encode : JobResult → Json) (tb : String) (now : ℕ) where
  -- ---- 1. reap finished futures
  unfoldable pub reap_broken : Job → String → Stores → Bool × Stores
  reap_broken job message w =
      let (ok, w') = apply_failure job message tb now w in
      (ok, if ok then on_table (fail job.id (with_traceback message tb) now) w' else w')

  unfoldable pub reap_resolved : Job → JobResult → Stores → Bool × Stores
  reap_resolved job r w = elim (apply_success is_close delete_blob job r tb now w) [
    | escaped w' ↦ (false, w')
    | applied none w' ↦ (true, on_table (complete job.id (some (encode r)) now) w')
    | applied (some message) w' ↦ (
      true,
      if same message ""
          then on_table (complete job.id (some (encode r)) now) w'
          else on_table (fail job.id message now) w',
    )
  ]

  unfoldable pub reap_entry : Entry → Stores → Bool × Stores
  reap_entry e w = elim e.future [
    | pending ↦ (true, w)
    | resolved r ↦ reap_resolved e.job r w
    | broken message ↦ reap_broken e.job message w
  ]

  -- The entries that are done, each popped before it is handled.
  unfoldable pub reap_entries : List Entry → Bool → Worker → Step
  reap_entries [] activity s = went activity s
  reap_entries (e ∷ es) activity s =
      let (ok, w) = reap_entry e s.stores in
      let s' : Worker = record s {
        stores = w;
        inflight = delete (is_entry_of e.job.id) s.inflight;
      } in
      let rest = reap_entries es true s' in if ok then rest else threw s'

  unfoldable pub reap : Worker → Step
  reap s = reap_entries (select (λ e. is_done e.future) s.inflight) false s

  -- ---- 2. claim while slots free
  -- One claimed job; an entry whose plan raises fails at once.
  unfoldable pub start : Job → Worker → Bool × Worker
  start job s = elim (execution_plan job) [
    | planned _ ↦ (
      true,
      record s { inflight = put_entry (record { job = job; future = pending }) s.inflight },
    )
    | unplanned message ↦
        let (ok, w) = reap_broken job message s.stores in (ok, record s { stores = w })
  ]

  -- The `while` on fuel: `none` is out of fuel.
  unfoldable pub claim_loop : String → ℕ → Bool → ℕ → Bool → Worker → Option Step
  claim_loop identity max_workers stopped zero activity s = none
  claim_loop identity max_workers stopped (suc n) activity s =
      let (out, t) = claim_next identity now [] s.stores.jobs in
      let claimed : Worker = record s { stores = on_table (λ _. t) s.stores } in
      let step : Option Step = elim out [
        | none ↦ some (went activity claimed)
        | some d ↦
            let (ok, s') = start d.row claimed in
            let rest = claim_loop identity max_workers stopped n true s' in
            if ok then rest else some (threw s')
      ] in
      if ltb (length s.inflight) max_workers && not stopped then step else some (went activity s)

  -- ---- 3. heartbeat and maintenance
  unfoldable pub beat_all : String → Worker → Worker
  beat_all identity s =
      if ltb 0 (length s.inflight) && leb (s.last_heartbeat + 25) now
      then record s {
        stores = on_table (λ t. (heartbeat identity now t).0) s.stores;
        last_heartbeat = now;
      }
      else s

  abbrev pub died : String
  died = "worker died (heartbeat stale, attempts exhausted)"

  -- The jobs that used up their attempts, with no traceback.
  unfoldable pub fail_exhausted : List JobDict → Stores → Bool × Stores
  fail_exhausted [] w = (true, w)
  fail_exhausted (d ∷ ds) w =
      let (ok, w') = apply_failure d.row died "" now w in
      let rest = fail_exhausted ds (on_table (fail d.row.id died now) w') in
      if ok then rest else (false, w')

  unfoldable pub maintain : Worker → Bool × Worker
  maintain s =
      let t : Jobs = (requeue_stale now s.stores.jobs).0 in
      let (ok, w) = fail_exhausted (stale_exhausted now t) (on_table (λ _. t) s.stores) in
      let kept : Worker = record s {
        stores = on_table (λ u. (prune now u).0) w;
        auth = (prune_sessions now s.auth).1;
        last_maintenance = now;
      } in
      if not (leb (s.last_maintenance + 60) now)
      then (true, s)
      else if ok
      then (true, kept)
      else (false, record s { stores = w })

  -- run_once
  unfoldable pub run_once : String → ℕ → Bool → ℕ → Worker → Option Step
  run_once identity max_workers stopped fuel s = elim (reap s) [
    | threw s' ↦ some (threw s')
    | went activity s' ↦ elim (claim_loop identity max_workers stopped fuel activity s') [
      | none ↦ none
      | some step ↦ elim step [
        | threw s'' ↦ some (threw s'')
        | went active s'' ↦
            let (ok, x) = maintain (beat_all identity s'') in
            some (if ok then went active x else threw x)
      ]
    ]
  ]
