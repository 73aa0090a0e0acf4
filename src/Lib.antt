-- ===== src/Lib.antt =====
-- The response workflow of the flood response system: how the office of a district turns a flood
-- warning into tasks, has them approved, sends them out, follows them in the field and closes the
-- event, with an audit ledger over everything. This library models its service, the rules and state
-- machine under it, the outbox with the simulated gateway, and the repository as the service sees it.
--
-- The parts and their files:
-- - flood_system/response_workflow/models.py: the enumerations are Response/Enums, the task
--   Response/Task, the request bodies Response/Requests, the other stored records Response/Records,
--   the ledger entries Response/Entry.
-- - flood_system/response_workflow/state_machine.py (`can_transition`, `ensure_transition`):
--   Response/Transitions.
-- - flood_system/storage/response_repository.py: the tables are the lists of `Store`, and its reads
--   and upserts the functions of Response/Store and Response/Store/Tables; its writes are actions of
--   Response/Exec.
-- - flood_system/response_workflow/service.py: a method is an action of the monad `M`, a function
--   from a store to a result, which is a value or an exception, and the store that is left. Each
--   write commits by itself, so what a method wrote before it raised stays. The guards, `_transition`
--   and `_save_escalation` are in Response/Guards; `_record`, `_task_event` and the scan of
--   `verify_timeline_integrity` in Response/Timeline and Response/Integrity; `update_task` and
--   `submit_task` in Response/Drafting; `_evaluate_task_rules` in Response/Rules; `decide_task`,
--   `_build_dispatch_outbox` and the transaction `commit_task_decision` in Response/Approval;
--   `acknowledge_task`, `start_task` and `assign_task` in Response/Execution; `submit_feedback` in
--   Response/Feedback; `cancel_task`, `take_over_task`, `waive_task` and `verify_completion` in
--   Response/Ending; deadline extensions in Response/Extensions; `run_deadline_sweep` and
--   `close_event` in Response/Sweep; `generate_review_draft` in Response/Review;
--   `_dispatch_outbox_message` and `_record_dispatch_callback` in Response/Dispatch;
--   `process_outbox` and `ingest_simulated_dispatch_callback` in Response/Outbox;
--   `is_feature_enabled` in Response/Flags and `update_feature_flag` in Response/Flags/Update;
--   `create_event`, `append_alert` and `_save_risk_object_version` in Response/Alerts;
--   `add_risk_objects` and `verify_risk_object` in Response/Objects; `create_task` with
--   `_resolve_candidate_object_list` in Response/Creation, `freeze_candidate_object_list` in
--   Response/Candidates.
-- - flood_system/response_workflow/feedback_policy.py: Response/Feedback, with the recommendations of a
--   review draft in Response/Review.
-- - flood_system/simulation_dataset.py (`SimulatedExternalGateway.dispatch`): Response/Gateway.
-- - flood_system/http/idempotency.py: Http/Idempotency. A request of the middleware moves through
--   phases, `advance` is one move, and `play` any interleaving of the moves of several requests; the
--   scope and the fingerprint are in Http/Idempotency/Keys, what is stored and replayed in
--   Http/Idempotency/Answers, the table of response_repository.py in Http/Idempotency/Records.
-- - flood_system/http/body_limit.py (`RequestBodyLimitMiddleware`): Http/BodyLimit, where the
--   application is a tree of what it receives and sends (`App`).
-- - flood_system/identity.py: Security/Identity, with `consume_identity_nonce` of the repository.
-- - flood_system/security.py (`DataProtector`): Security/KeyRing, with the cipher as a parameter.
--
-- The proofs: Response/Exec/Keeps and Response/Exec/Leads are rules for what an action does to a
-- condition on the store; Response/Ledger and Response/Revisions say that each method keeps
-- whatever a recorded entry, a reading of the clock and the writes of risk objects keep
-- (`LedgerLaw`), Response/Lifecycle that each method is one step, or none, of the abstract life of
-- a task, the sweep one for each overdue task, and `create_task` a draft under a new key, and
-- Response/Service puts them together over runs, which are lists of calls: Response/Service/Changes
-- has what each call does to the task table. Response/Duties has the
-- conditions under which single calls return. Response/Tests holds runs on small stores.
--
-- What is outside the program is the record `Env`: the successive readings of the clock and of
-- `uuid4`, SHA-256 over canonical JSON as functions of what is digested, Unicode lower case, and the
-- environment variables. A text that the program only compares or tests for emptiness is a number, 0
-- for the empty one; a text that it looks into is a list of code points. Times are numbers of
-- microseconds; support scores are numbers of ten-thousandths. No loop needs fuel: each is a
-- recursion over a list.
--
-- What is not modelled: the generation of task drafts by retrieval, the registry of risk objects
-- and the discovery of candidates, evidence and document governance, evaluations, dashboards,
-- backups and migrations of the same service; the dashboard that `close_event` returns, for which
-- it returns the event; the prose of records (the message of a rule, the advice of an escalation,
-- the reason of a classification, the texts of a review draft). Two calls of the service do not
-- interleave here: a run is a list of whole calls.
pub mod Base
pub mod Response
pub mod Http
pub mod Security
