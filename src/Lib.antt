-- ===== src/Lib.antt =====
-- The verification library of the service's core: the stores of shared state (jobs, authorization,
-- versions, files), the guards over them, the worker loop with the effects of its jobs, and the
-- validation of the external rule checker.
--
-- The program is a web service for drawings. Web replicas and worker processes share one database.
-- A replica submits a job as a row of `jobs`, workers claim and finish the rows (app/jobstore.py).
-- Who may do what is decided from the rows of `role_grants`, who edits a product from the row of
-- `product_edit_locks`, and who is logged in from the rows of `sessions` (app/auth.py). A product has
-- versions, which a sign-off freezes (app/versions.py, app/products.py). The guards in front of the
-- web API (app/guards.py) decide from these what a request may do. The files that are bound to a
-- version give the views of a product's role (app/product_views.py).
--
-- Files, by the code that they model:
--   Prelude: library names passed on, tests on numbers and texts, columns that may be NULL.
--   Table: a table as a list of rows in the order of insertion, with SELECT, UPDATE, DELETE, COUNT,
--   ORDER BY and MIN as functions, and their laws (Table/Rows, Keys, Order, Unique, Members,
--   Inserts).
--   Json: the JSON object of a job's payload as an association list, as far as the store edits it.
--   JobStore: class JobStore of app/jobstore.py. Rows: the columns, `_row_to_dict` and the row of an
--   `insert`. Queue: insert, get, list_all, find_inflight, latest_for_version, claim_next, heartbeat.
--   Lifecycle: complete, fail, update_payload, bump_parent_done, append_parent_error, requeue_stale,
--   stale_exhausted, prune. Trace: a call of any replica or worker as a value, and runs of calls.
--   The others hold proofs: Invariant and Attempts about runs, Claims, Races and Exclusion about
--   claims, Frame about rows that a call leaves alone, Upkeep and Parents.
--   Auth: class AuthStore of app/auth.py. Store: the tables and `_audit`. Grants: add_grant,
--   revoke_grant, list_grants, bootstrap_admins. Roles: effective_role. Locks: acquire_lock,
--   heartbeat_lock, lock_holder, release_lock. Users: logins and customers. Sessions: create_session,
--   resolve_session, delete_session, prune_sessions. Proofs: GrantRules, RoleLaws, RoleScopes,
--   LockLaws, LockRuns, SessionLaws, SessionRuns.
--   Versions: the rows of app/versions.py and app/products.py, and those of app/library.py and
--   app/files.py that a clone copies (Rows); the reads, sign_off, unsign, set_check_dam, set_customer
--   and the deletion of a product's row (Methods); create_product, create_first, create_clone and
--   delete_for_product (Creation); a call as a value, and runs of calls (Runs). Proofs: Labels,
--   Distinct, Freeze, CloneSteps, Clones.
--   Guards: the guards of app/guards.py over the two stores: _product_for, effective_role (here
--   `folded_role`), _enforce, require_role, job_viewer_guard, template_editor_guard and
--   visible_products. Guards/Laws holds what they promise.
--   Views: resolve_views of app/product_views.py, over what it reads of a FileRecord, whose rects are
--   decoded from the bindings of Versions/Rows as _decode_rect of app/files.py does.
--   Views/Laws holds what it amounts to.
--   RuleCheck: app/rule_check.py, whose functions keep their names, less the underscore. Values: what
--   the external checker may return. Spec: the shape that the module's doc gives, as a Boolean test.
--   Proofs: Readers for the typed fields, SubRules, Envelope.
--   Files: class FileStore of app/files.py over `files` and `version_files`. Rows: the tables and the
--   states of a binding; Bindings: the writes; Reads: the joins. Calls: a write as a value, and the two
--   maps that the tables stand for. Proofs: Maps, Refinement, Runs.
--   Jobs: app/jobs.py, and the keys of app/storage.py (Stores). Submit: submit_preprocess,
--   submit_discover_layers, submit_rule_check, submit_save_match, find_inflight_preprocess_job.
--   Reprocess: submit_unit_override_preprocess and submit_reprocess_all. Plans: execution_plan.
--   Effects: apply_success, apply_failure, _apply_preprocess_result and its helpers. Expected: the rows
--   of a reprocess-all, by themselves. Proofs: Eligible and Batch about the reprocess-all, Preprocessed, Rescale and StaleMatch about a preprocess result,
--   Kept.
--   Worker: run_once of app/worker_loop.py in its three parts (Ticks: `reap`, `claim_loop`, `beat_all`
--   and `maintain`). Proofs: Queued and Claiming about the claim loop, Children and Reaping about the
--   children of a reprocess-all.
--   Sides: app/side_regions.py. Texts: `split` and `join` at dots. Keys: parse_match_key, and the keys
--   that split_matches_by_side makes. Views: is_allowed_view of app/library.py, normalise_rect,
--   point_in_rect, side_prefix_for and split_matches_by_side. Contained:
--   suppress_contained_matches, over the search that it does (`indexed_search` is the code's). Proofs:
--   Counting, Groups, Placing and Split about the sides, Search and Suppress.
--   Sql: _qmark_to_format of app/db.py. Fill: what a driver that interpolates in the style of printf makes
--   of the translated statement, its parameters rendered beforehand. Pieces: a statement by its
--   quotations and placeholders. Reading: a text as such a statement.
--   Samples, in each of these: concrete runs of the code and the theorems at work on them.
--
-- Choices. A method is one transaction, a function from the tables to the tables and a result; an
-- exception leaves the tables as they were. The two statements of `claim_next` are not one
-- transaction, so what others do between them is an argument of it (`Round`), one for each turn of its
-- loop; after the list of them it runs undisturbed, and needs no fuel. Times are whole seconds and an
-- argument of the methods, ids and tokens of `uuid` and `secrets` are arguments, and sha256 is a
-- parameter. The UNIQUE constraints are tests of the insertion, which fails as the code's
-- IntegrityError does. A text that the code stores as JSON and never reads is kept as a text.
--
-- A worker's result is an argument of the effects, a dict with keys that may be missing, as are the
-- states of the futures that a tick finds. A call of several transactions that raises half-way leaves
-- what it wrote: its result carries the stores then. The claim loop runs on fuel, and more fuel than
-- there are queued jobs is enough. Floats are the numbers that stand for their bits, the closeness of
-- two is a parameter, as are the centre of a match, `int` and the order of
-- texts, the blob store's delete, `json.loads`, `float`, the JSON of a result and the
-- collation of ORDER BY.
--
-- Not modelled: the opening of the database, its migrations, the HTTP handlers, the bodies of the
-- workers (parsing, rendering and matching, over ezdxf and numpy), the bytes of files and blobs, the
-- geometry, the template library, the threads of the embedded worker and its back-off, and the texts
-- for the pages.
pub mod Prelude
pub mod Table
pub mod Json
pub mod JobStore
pub mod Auth
pub mod Versions
pub mod Guards
pub mod Views
pub mod RuleCheck
pub mod Files
pub mod Jobs
pub mod Worker
pub mod Sides
pub mod Sql
