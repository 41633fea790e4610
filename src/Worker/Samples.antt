-- ===== src/Worker/Samples.antt =====
-- One tick of app/worker_loop.py on a queue of three jobs, one of a kind that there is no worker for.
use smdr.Prelude.{
  ℕ, String, Bool, ◌≡◌, ◌≤◌, refl, List, [], ◌∷◌, Option, some, none, false, inr, map, length,
  arith,
}
use smdr.Json.{Json, nil}
use smdr.JobStore.Rows.{Job, new_row, running, row_to_dict}
use smdr.Jobs.Stores.{JobResult}
use smdr.Jobs.Submit.{new_job}
use smdr.Worker.Ticks.{
  Worker, Entry, Future, Step, went, threw, claim_loop, reap_entries, start, reap_broken, put_entry,
}
use smdr.Json
use smdr.Table.{select, least, count, first, update}
use smdr.JobStore.Queue.{claim_next, claim_round, next_queued, try_claim, get}
use smdr.JobStore.Lifecycle.{fail}
use smdr.Jobs.Plans.{execution_plan}
use smdr.Jobs.Effects.{apply_failure, report_to_parent}
use smdr.Worker.Queued.{queued_count}
use smdr.Worker.Children.{IsCounted}
use smdr.Worker.Claiming.{claim_loop-settles, after_step, IsSettled}
use smdr.Worker.Reaping.{reap_entries-counts}

abbrev no_delete : String → List String → Option (List String)
no_delete k ks = some ks

abbrev never : ℕ → ℕ → Bool
never a b = false

abbrev encode : JobResult → Json
encode r = Json.null

abbrev parent : Job
parent =
    record (new_row "all" 1
      (record (new_job "reprocess-all" (("errors", Json.arr nil) ∷ []) none none) {
        total = some 2;
        done_count = some 0;
        status = running;
      })) { attempts = 0 }

abbrev child : String → Job
child k =
    new_row k 2
      (record (new_job "preprocess" (("library_id", Json.str "l1") ∷ []) (some "v1") (some "h")) {
        parent_id = some "all";
      })

abbrev odd_job : Job
odd_job = new_row "odd" 1 (new_job "nonsense" [] none none)

abbrev worker : Worker
worker = record {
  stores = record {
    jobs = parent ∷ odd_job ∷ child "c1" ∷ child "c2" ∷ [];
    files = record { files = []; version_files = [] };
    blobs = [];
  };
  auth = record {
    users = [];
    customers = [];
    role_grants = [];
    audit_log = [];
    product_edit_locks = [];
    sessions = [];
  };
  inflight = [];
  last_heartbeat = 0;
  last_maintenance = 0;
}

abbrev children : List Entry
children =
    record { job = child "c1"; future = Future.broken "boom" }
    ∷ record {
      job = child "c2";
      future = Future.resolved (record {
        primitive_count = some 7;
        bbox = none;
        background = none;
        insunits = none;
        applied_scale = none;
        detector_factor = none;
        user_unit_override_requested = none;
        dxf_recover_notes = none;
        source_layout = none;
        source_is_paperspace = false;
        needs_layout_pick = false;
      });
    }
    ∷ []

claim_loop-settles_example :
    (step : Step) × (claim_loop never no_delete encode "tb" 9 "w" 1 false 4 false worker
      ≡ some step)
    × (length (after_step never no_delete encode "tb" 9 step).inflight ≤ 1)
    × IsSettled never no_delete encode "tb" 9 1 false step
unfolding queued_count count new_row
claim_loop-settles_example =
    claim_loop-settles never no_delete encode "tb" 9 "w" 1 false 4 false worker (omega arith)
      (omega arith)

reap_entries-counts_example :
    (active : Bool) × (s' : Worker) × (reap_entries never no_delete encode "tb" 9 children false
        worker
      ≡ went active s')
    × IsCounted "all" 2 2 s'.stores.jobs
unfolding new_row first Json.get
reap_entries-counts_example =
    reap_entries-counts "all" refl never no_delete encode "tb" 9 children false 2 0 worker
      ((refl, refl, refl), ((refl, refl, refl), tt))
      (parent, refl, record { total = refl; counted = refl; state = refl }, inr (_, refl))

abbrev flying : Option Step → List String
flying none = []
flying (some (went a s)) = map (λ e. e.job.id) s.inflight
flying (some (threw s)) = []

-- The odd job fails, and the first child takes the one slot.
first_claims :
    flying (claim_loop never no_delete encode "tb" 9 "w" 1 false 4 false worker) ≡ "c1" ∷ []
unfolding claim_loop claim_next claim_round next_queued select least new_row try_claim count get
    first update start execution_plan reap_broken apply_failure report_to_parent fail put_entry
    Json.get row_to_dict
first_claims = refl
