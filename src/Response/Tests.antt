-- ===== src/Response/Tests.antt =====
-- The environment, the records and the requests of the runs below.
mod Runs
mod Duties
mod Delivery
mod Objects
use flood_agent.Base.{
  ℕ, ◌+◌, suc, Bool, true, false, Option, some, none, List, [], ◌∷◌, Ident, Time, Text,
}
use flood_agent.Response.Enums.{
  OperatorRole, TaskStatus, draft, active, EventStatus, confirmed, ObjectVerificationStatus,
  reviewer_required, ApprovalDecision,
}
use flood_agent.Response.Task.{ResponseTask, payload_of}
use flood_agent.Response.Requests.{TaskActionRequest, ApprovalRequest, registry_active}
use flood_agent.Response.Records.{ResponseEvent, EventRiskObject, TaskFeedback}
use flood_agent.Response.Store.{Env, Store}
use flood_agent.Response.Exec.{Result, ok, err}

abbrev pub test_env : Env
test_env = record {
  clock = λ n. n + 100;
  uuid = λ p n. n + 1000;
  payload_digest = λ p. suc p.version;
  evidence_digest = λ l. 77;
  entry_digest = λ b. suc b.entry_id;
  feedback_digest = λ f. 55;
  lower = λ t. t;
  environment = 0x64 ∷ 0x65 ∷ 0x76 ∷ [];
  mock_token = 42;
  dispatch_digest = λ x. 66;
  request_tag = λ k. k;
  trace_tag = λ k. k;
  content_digest = λ k. k;
  event_tag = λ t k. k;
  verification_digest = λ v. 88;
  list_digest = λ v. 89;
  list_tag = λ k. k;
  text_of = λ k. k ∷ [];
}

-- The event 1, in a status.
abbrev pub event_in : EventStatus → ResponseEvent
event_in status = record {
  event_id = 1;
  title = 12;
  area_id = 13;
  status = status;
  current_alert_version = 1;
  created_at = 10;
  updated_at = 10;
  closed_at = none;
  closed_by = none;
  source_type = 2;
  is_simulated = true;
}

-- The task 5 of the event 1, in a status: its draft passes the rules with a warning.
abbrev pub task_in : TaskStatus → ResponseTask
task_in status = record {
  task_id = 5;
  event_id = 1;
  object_id = 7;
  version = 3;
  title = 0x61 ∷ [];
  action = 0x62 ∷ [];
  responsible_organization = 14;
  responsible_role = 15;
  cooperate_roles = [];
  status = status;
  deadline_at = 120;
  acknowledge_deadline_at = 90;
  start_deadline_at = none;
  verification_deadline_at = none;
  required_evidence = (0x70 ∷ []) ∷ [];
  plan_basis = record { document = 16; version = 17; clause = 18 } ∷ [];
  approval_policy = reviewer_required;
  escalation_rule = 19;
  dependencies = [];
  generated_by_ai = false;
  generation_version = none;
  grounding_summary = 0;
  evidence_role_coverage = [];
  source_evidence = [];
  validation_warnings = [];
  drafted_by = 31;
  created_at = 20;
  updated_at = 20;
  approved_version = some 3;
  assignee_id = some 34;
  assignee_name = some 35;
  assignee_role = none;
  assignment_version = 1;
  approval_payload_hash = some 4;
  evidence_package_hash = none;
  evidence_package_id = none;
  evidence_package_version = none;
  candidate_object_list_id = none;
  candidate_object_list_version = none;
  candidate_object_list_hash = none;
  task_schema_version = 21;
  rule_set_version = 22;
  dispatch_message_id = none;
  creation_idempotency_key = none;
  effective_start_deadline_at = none;
  effective_completion_deadline_at = none;
  effective_verification_deadline_at = none;
  active_extension_id = none;
  last_rule_evaluation_id = none;
}

-- The object 7 of the event 1.
abbrev pub object_in : ObjectVerificationStatus → Bool → EventRiskObject
object_in status stale = record {
  input = record {
    object_id = 7;
    canonical_object_id = some 7;
    aliases = [];
    duplicate_of = none;
    name = 0x61 ∷ [];
    source_refs = 70 ∷ [];
    risk_score = 60;
    registry_status = registry_active;
    registry_valid_until = none;
    data_version = 72;
    is_simulated = true;
    description = 71;
  };
  event_id = 1;
  verification_status = status;
  verified_by = some 32;
  verified_at = some 10;
  verification_note = [];
  created_at = 10;
  stale = stale;
  candidate_run_id = none;
  version = 2;
  updated_at = some 10;
}

-- A store that holds the event 1, its object 7 and these tasks.
abbrev pub holding : EventStatus → List ResponseTask → Store
holding status tasks = record {
  events = event_in status ∷ [];
  alerts = [];
  object_versions = [];
  object_lists = [];
  candidate_runs = [];
  objects = object_in confirmed false ∷ [];
  packages = [];
  tasks = tasks;
  timeline = [];
  feedback = [];
  escalations = [];
  assignments = [];
  extensions = [];
  approvals = [];
  evaluations = [];
  snapshots = [];
  outbox_messages = [];
  callbacks = [];
  flags = [];
  reviews = [];
  ticks = 0;
  minted = 0;
}

-- A request of the operator 32 in a role.
abbrev pub act_as : OperatorRole → TaskActionRequest
act_as role = record {
  operator_id = 32;
  operator_role = role;
  note = 0x61 ∷ 0x62 ∷ 0x63 ∷ 0x64 ∷ [];
  terminal_id = 9;
  expected_version = none;
}

-- What a call returns, or a value where it raises.
abbrev pub returned_or : {A : Type 0} → A → Result A → A
returned_or a (ok b) = b
returned_or a (err e) = a
