-- ===== src/Response/Creation.antt =====
-- Drafting a task by hand: `create_task`, `_resolve_candidate_object_list` and
-- `_candidate_object_verification_hash` of flood_system/response_workflow/service.py.
use flood_agent.Base.{
  ℕ, Bool, true, false, not, ◌&&◌, Option, none, some, List, [], ◌∷◌, ◌==◌, if◌then◌else◌, Ident,
  Time, Text, codes, find, last?,
}
use flood_agent.Response.Enums.{draft}
use flood_agent.Response.Task.{ResponseTask}
use flood_agent.Response.Requests.{TaskCreateRequest}
use flood_agent.Response.Records.{
  EventRiskObject, AlertSnapshot, CandidateObjectListVersion, CandidateObjectReference, created,
}
use flood_agent.Response.Entry.{task, task_draft_created, no_state, status_version, draft_detail}
use flood_agent.Response.Store.{Env, Store, tsk, find_object, list_tasks}
use flood_agent.Response.Store.Tables.{list_alerts, list_object_lists}
use flood_agent.Response.Exec.{
  object_not_confirmed, list_not_found, not_latest_list, outdated_list, not_listed,
  object_not_found, list_mismatch, bad_binding, Result, ok, or_error, M, pure, gets, lift, require,
  or_raise, now, new_id, save_task, ◌>>=◌, ◌>>◌,
}
use flood_agent.Response.Guards.{require_role, get_event, edit_roles, is_truthy, is_ident}
use flood_agent.Response.Rules.{is_confirmed, current_rule_set}
use flood_agent.Response.Drafting.{save_task_version_snapshot}
use flood_agent.Response.Timeline.{record_entry}

-- `_candidate_object_verification_hash`
abbrev pub candidate_object_verification_hash : Env → EventRiskObject → Ident
candidate_object_verification_hash env item = env.verification_digest (record {
  object_id = item.object_id;
  version = item.version;
  verification_status = item.verification_status;
  verified_by = item.verified_by;
  verified_at = item.verified_at;
  candidate_run_id = item.candidate_run_id;
  data_version = item.data_version;
  source_refs = item.source_refs;
})

-- `selected`
abbrev select_version :
    Option ℕ
    → List CandidateObjectListVersion
    → CandidateObjectListVersion
    → Result CandidateObjectListVersion
select_version none versions latest = ok latest
select_version (some v) versions latest =
    or_error (find (λ l. l.version == v) versions) list_not_found

-- The alert is there, and has this identifier.
abbrev pub is_snapshot : Option AlertSnapshot → Ident → Bool
is_snapshot none k = false
is_snapshot (some a) k = k == a.snapshot_id

-- The object is as it was when the list was frozen.
abbrev pub is_current : Env → EventRiskObject → CandidateObjectReference → Bool
is_current env current reference =
    current.version == reference.object_version
    && candidate_object_verification_hash env current == reference.verification_hash

-- `_resolve_candidate_object_list`, where the event has a list.
unfoldable pub resolve_in :
    Env
    → Ident
    → Ident
    → Option ℕ
    → List CandidateObjectListVersion
    → CandidateObjectListVersion
    → M (Option CandidateObjectListVersion)
resolve_in env event_id object_id requested versions latest = do
  selected ← lift (select_version requested versions latest)
  require (selected.version == latest.version) not_latest_list
  alerts ← gets (λ s. list_alerts event_id s.alerts)
  require (is_snapshot (last? alerts) selected.alert_snapshot_id) outdated_list
  reference ← or_raise (find (λ x. x.object_id == object_id) selected.objects) not_listed
  found ← gets (λ s. find_object event_id object_id s.objects)
  current ← or_raise found object_not_found
  require (is_current env current reference) list_mismatch
  pure (some selected)

abbrev pub resolve_after :
    Env
    → Ident
    → Ident
    → Option ℕ
    → List CandidateObjectListVersion
    → Option CandidateObjectListVersion
    → M (Option CandidateObjectListVersion)
resolve_after env event_id object_id requested versions none = pure none
resolve_after env event_id object_id requested versions (some latest) =
    resolve_in env event_id object_id requested versions latest

unfoldable pub resolve_candidate_object_list :
    Env → Ident → Ident → Option ℕ → M (Option CandidateObjectListVersion)
resolve_candidate_object_list env event_id object_id requested = do
  versions ← gets (λ s. list_object_lists event_id s.object_lists)
  resolve_after env event_id object_id requested versions (last? versions)

abbrev is_number : Option ℕ → ℕ → Bool
is_number none n = false
is_number (some m) n = m == n

-- The request names the list that was resolved, if there is one.
abbrev pub binds : TaskCreateRequest → Option CandidateObjectListVersion → Bool
binds request none = true
binds request (some l) =
    is_ident request.candidate_object_list_id l.list_id
    && is_number request.candidate_object_list_version l.version
    && is_ident request.candidate_object_list_hash l.content_hash

-- `TASK_SCHEMA_VERSION`, the text "response-task-schema-v2"
abbrev pub current_task_schema : Ident
current_task_schema = 7

-- `ResponseTask(**request, …)`
abbrev pub drafted_task : Ident → TaskCreateRequest → Ident → Time → ResponseTask
drafted_task event_id request task_id moment = record {
  task_id = task_id;
  event_id = event_id;
  object_id = request.object_id;
  version = 1;
  title = request.title;
  action = request.action;
  responsible_organization = request.responsible_organization;
  responsible_role = request.responsible_role;
  cooperate_roles = request.cooperate_roles;
  status = draft;
  deadline_at = request.deadline_at;
  acknowledge_deadline_at = request.acknowledge_deadline_at;
  start_deadline_at = request.start_deadline_at;
  verification_deadline_at = request.verification_deadline_at;
  required_evidence = request.required_evidence;
  plan_basis = request.plan_basis;
  approval_policy = request.approval_policy;
  escalation_rule = request.escalation_rule;
  dependencies = request.dependencies;
  generated_by_ai = request.generated_by_ai;
  generation_version = request.generation_version;
  grounding_summary = request.grounding_summary;
  evidence_role_coverage = request.evidence_role_coverage;
  source_evidence = request.source_evidence;
  validation_warnings = request.validation_warnings;
  drafted_by = request.operator_id;
  created_at = moment;
  updated_at = moment;
  approved_version = none;
  assignee_id = none;
  assignee_name = none;
  assignee_role = none;
  assignment_version = 0;
  approval_payload_hash = none;
  evidence_package_hash = request.evidence_package_hash;
  evidence_package_id = request.evidence_package_id;
  evidence_package_version = request.evidence_package_version;
  candidate_object_list_id = request.candidate_object_list_id;
  candidate_object_list_version = request.candidate_object_list_version;
  candidate_object_list_hash = request.candidate_object_list_hash;
  task_schema_version = current_task_schema;
  rule_set_version = current_rule_set;
  dispatch_message_id = none;
  creation_idempotency_key = request.idempotency_key;
  effective_start_deadline_at = none;
  effective_completion_deadline_at = none;
  effective_verification_deadline_at = none;
  active_extension_id = none;
  last_rule_evaluation_id = none;
}

-- The object is confirmed and not stale.
unfoldable pub is_ready : Option EventRiskObject → Bool
is_ready none = false
is_ready (some o) = is_confirmed (some o) && not o.stale

-- `list(TaskCreateRequest.model_fields)`
abbrev model_fields : List Text
model_fields =
    codes "object_id"
    ∷ codes "title"
    ∷ codes "action"
    ∷ codes "responsible_organization"
    ∷ codes "responsible_role"
    ∷ codes "cooperate_roles"
    ∷ codes "deadline_at"
    ∷ codes "acknowledge_deadline_at"
    ∷ codes "start_deadline_at"
    ∷ codes "verification_deadline_at"
    ∷ codes "required_evidence"
    ∷ codes "plan_basis"
    ∷ codes "approval_policy"
    ∷ codes "escalation_rule"
    ∷ codes "dependencies"
    ∷ codes "operator_id"
    ∷ codes "operator_role"
    ∷ codes "terminal_id"
    ∷ codes "generated_by_ai"
    ∷ codes "generation_version"
    ∷ codes "grounding_summary"
    ∷ codes "evidence_role_coverage"
    ∷ codes "source_evidence"
    ∷ codes "validation_warnings"
    ∷ codes "evidence_package_id"
    ∷ codes "evidence_package_version"
    ∷ codes "evidence_package_hash"
    ∷ codes "candidate_object_list_id"
    ∷ codes "candidate_object_list_version"
    ∷ codes "candidate_object_list_hash"
    ∷ codes "idempotency_key"
    ∷ []

-- The new draft is stored.
unfoldable pub store_draft : Env → Ident → TaskCreateRequest → M ResponseTask
store_draft env event_id request = do
  moment ← now env
  task_id ← new_id env tsk
  let drafted = drafted_task event_id request task_id moment
  save_task drafted
  save_task_version_snapshot env drafted created model_fields request.operator_id
      request.terminal_id (codes "任务草案创建")
  record_entry env (record {
    event_id = event_id;
    task_id = some drafted.task_id;
    object_id = some drafted.object_id;
    entry_type = task;
    action = task_draft_created;
    actor_id = request.operator_id;
    actor_role = request.operator_role;
    terminal_id = request.terminal_id;
    before_state = no_state;
    after_state = status_version draft 1;
    detail = draft_detail request.generated_by_ai 1;
  })
  pure drafted

-- `create_task` where no task of the event has the key of the request.
unfoldable pub draft_task : Env → Ident → TaskCreateRequest → M ResponseTask
draft_task env event_id request = do
  object ← gets (λ s. find_object event_id request.object_id s.objects)
  require (is_ready object) object_not_confirmed
  listed ←
      resolve_candidate_object_list env event_id request.object_id
        request.candidate_object_list_version
  require (binds request listed) bad_binding
  store_draft env event_id request

abbrev same_key : Option Ident → Option Ident → Bool
same_key none k = false
same_key (some a) none = false
same_key (some a) (some b) = a == b

-- `existing_task`
abbrev pub existing_task : Ident → TaskCreateRequest → Store → Option ResponseTask
existing_task event_id request s =
    if is_truthy request.idempotency_key
    then find (λ t. same_key t.creation_idempotency_key request.idempotency_key)
        (list_tasks event_id s.tasks)
    else none

abbrev pub return_or_draft : Env → Ident → TaskCreateRequest → Option ResponseTask → M ResponseTask
return_or_draft env event_id request (some t) = pure t
return_or_draft env event_id request none = draft_task env event_id request

unfoldable pub create_task : Env → Ident → TaskCreateRequest → M ResponseTask
create_task env event_id request = do
  require_role request.operator_role edit_roles
  get_event event_id true
  existing ← gets (existing_task event_id request)
  return_or_draft env event_id request existing
