-- ===== src/Response/Drafting.antt =====
-- Editing and submitting a draft: `update_task` and `submit_task` of
-- flood_system/response_workflow/service.py.
use flood_agent.Base.{
  ◌≡◌, arith, ℕ, ◌+◌, Bool, true, false, not, ◌||◌, Option, none, some, List, [], ◌∷◌, Ident, Text,
  codes, if◌then◌else◌, mem, all, map, is_some, with_default, filter_by,
}
use flood_agent.Response.Enums.{TaskStatus, draft, pending_approval, RuleOutcome, hard_block}
use flood_agent.Response.Task.{ResponseTask}
use flood_agent.Response.Requests.{TaskActionRequest, TaskChanges, TaskUpdateRequest}
use flood_agent.Response.Records.{ChangeType, revised, RuleEvaluationRecord}
use flood_agent.Response.Entry.{
  task, task_draft_revised, task_submitted, fields_note, version_detail, revision_detail,
}
use flood_agent.Response.Store.{Env, Store, taskver, list_tasks}
use flood_agent.Response.Exec.{
  not_draft, unknown_dependencies, hard_blocked, M, choose, pure, gets, require, now, new_id,
  save_task, save_snapshot, ◌>>=◌, ◌>>◌,
}
use flood_agent.Response.Guards.{
  require_role, get_event, get_task, assert_expected_version, ensure_transition, edit_roles,
}
use flood_agent.Response.Rules.{evaluate_task_rules, is_soft_warning}
use flood_agent.Response.Timeline.{record_entry, task_event}

unfoldable pub is_draft : TaskStatus → Bool
is_draft draft = true
is_draft _ = false

pub is_draft_lem : (t : TaskStatus) → is_draft t ≡ true → t ≡ draft
unfolding is_draft
is_draft_lem t h = ground arith

-- The request names a field to change.
unfoldable pub has_changes : TaskUpdateRequest → Bool
has_changes r =
    is_some r.title
    || is_some r.action
    || is_some r.responsible_organization
    || is_some r.responsible_role
    || is_some r.cooperate_roles
    || is_some r.deadline_at
    || is_some r.acknowledge_deadline_at
    || is_some r.required_evidence
    || is_some r.plan_basis
    || is_some r.approval_policy
    || is_some r.escalation_rule
    || is_some r.dependencies
    || is_some r.grounding_summary
    || is_some r.evidence_role_coverage
    || is_some r.source_evidence
    || is_some r.validation_warnings

-- `task.model_copy(update=changes)`
abbrev pub revised_task : ResponseTask → TaskUpdateRequest → ℕ → ResponseTask
revised_task t r moment = record t {
  title = with_default r.title t.title;
  action = with_default r.action t.action;
  responsible_organization = with_default r.responsible_organization t.responsible_organization;
  responsible_role = with_default r.responsible_role t.responsible_role;
  cooperate_roles = with_default r.cooperate_roles t.cooperate_roles;
  deadline_at = with_default r.deadline_at t.deadline_at;
  acknowledge_deadline_at = with_default r.acknowledge_deadline_at t.acknowledge_deadline_at;
  required_evidence = with_default r.required_evidence t.required_evidence;
  plan_basis = with_default r.plan_basis t.plan_basis;
  approval_policy = with_default r.approval_policy t.approval_policy;
  escalation_rule = with_default r.escalation_rule t.escalation_rule;
  dependencies = with_default r.dependencies t.dependencies;
  grounding_summary = with_default r.grounding_summary t.grounding_summary;
  evidence_role_coverage = with_default r.evidence_role_coverage t.evidence_role_coverage;
  source_evidence = with_default r.source_evidence t.source_evidence;
  validation_warnings = with_default r.validation_warnings t.validation_warnings;
  version = t.version + 1;
  updated_at = moment;
}

-- `getattr(task, field)`, for a field that is among the changes.
abbrev value_of : {A : Type 0} → Option A → A → Option A
value_of none current = none
value_of (some new) current = some current

-- `{field: getattr(task, field) for field in changes}`
abbrev pub values_at : TaskChanges → ResponseTask → TaskChanges
values_at c t = record {
  title = value_of c.title t.title;
  action = value_of c.action t.action;
  responsible_organization = value_of c.responsible_organization t.responsible_organization;
  responsible_role = value_of c.responsible_role t.responsible_role;
  cooperate_roles = value_of c.cooperate_roles t.cooperate_roles;
  deadline_at = value_of c.deadline_at t.deadline_at;
  acknowledge_deadline_at = value_of c.acknowledge_deadline_at t.acknowledge_deadline_at;
  required_evidence = value_of c.required_evidence t.required_evidence;
  plan_basis = value_of c.plan_basis t.plan_basis;
  approval_policy = value_of c.approval_policy t.approval_policy;
  escalation_rule = value_of c.escalation_rule t.escalation_rule;
  dependencies = value_of c.dependencies t.dependencies;
  grounding_summary = value_of c.grounding_summary t.grounding_summary;
  evidence_role_coverage = value_of c.evidence_role_coverage t.evidence_role_coverage;
  source_evidence = value_of c.source_evidence t.source_evidence;
  validation_warnings = value_of c.validation_warnings t.validation_warnings;
}

abbrev names_of : List (Bool × Text) → List Text
names_of [] = []
names_of ((is_changed, name) ∷ rows) =
    let rest = names_of rows in if is_changed then name ∷ rest else rest

-- `sorted(changes)`, with or without the keys "updated_at" and "version".
unfoldable pub field_names : Bool → TaskChanges → List Text
field_names is_updated c = names_of (
    (is_some c.acknowledge_deadline_at, codes "acknowledge_deadline_at")
    ∷ (is_some c.action, codes "action")
    ∷ (is_some c.approval_policy, codes "approval_policy")
    ∷ (is_some c.cooperate_roles, codes "cooperate_roles")
    ∷ (is_some c.deadline_at, codes "deadline_at")
    ∷ (is_some c.dependencies, codes "dependencies")
    ∷ (is_some c.escalation_rule, codes "escalation_rule")
    ∷ (is_some c.evidence_role_coverage, codes "evidence_role_coverage")
    ∷ (is_some c.grounding_summary, codes "grounding_summary")
    ∷ (is_some c.plan_basis, codes "plan_basis")
    ∷ (is_some c.required_evidence, codes "required_evidence")
    ∷ (is_some c.responsible_organization, codes "responsible_organization")
    ∷ (is_some c.responsible_role, codes "responsible_role")
    ∷ (is_some c.source_evidence, codes "source_evidence")
    ∷ (is_some c.title, codes "title")
    ∷ (is_updated, codes "updated_at")
    ∷ (is_some c.validation_warnings, codes "validation_warnings")
    ∷ (is_updated, codes "version")
    ∷ [])

-- `_save_task_version_snapshot`
unfoldable pub save_task_version_snapshot :
    Env → ResponseTask → ChangeType → List Text → Ident → Ident → Text → M (Unit {0})
save_task_version_snapshot env changed change_type changed_fields operator_id terminal_id note = do
  snapshot_id ← new_id env taskver
  moment ← now env
  save_snapshot (record {
    snapshot_id = snapshot_id;
    task = changed;
    change_type = change_type;
    changed_fields = changed_fields;
    note = note;
    created_by = operator_id;
    terminal_id = terminal_id;
    created_at = moment;
  })

-- `update_task` once the checks have passed.
unfoldable pub revise : Env → ResponseTask → TaskUpdateRequest → M ResponseTask
revise env old request = do
  moment ← now env
  let changed = revised_task old request moment
  save_task changed
  save_task_version_snapshot env changed revised (field_names false request.changes)
      request.operator_id request.terminal_id request.note
  record_entry env (record {
    event_id = changed.event_id;
    task_id = some changed.task_id;
    object_id = some changed.object_id;
    entry_type = task;
    action = task_draft_revised;
    actor_id = request.operator_id;
    actor_role = request.operator_role;
    terminal_id = request.terminal_id;
    before_state = fields_note (values_at request.changes old);
    after_state = fields_note (values_at request.changes changed);
    detail = revision_detail changed.version (field_names true request.changes) request.note;
  })
  pure changed

unfoldable pub update_task : Env → Ident → TaskUpdateRequest → M ResponseTask
update_task env task_id request = do
  require_role request.operator_role edit_roles
  old ← get_task task_id
  get_event old.event_id true
  require (is_draft old.status) not_draft
  assert_expected_version old request.expected_version
  choose (has_changes request) (revise env old request) (pure old)

unfoldable pub is_blocking : RuleOutcome → Bool
is_blocking hard_block = true
is_blocking _ = false

-- The message of the one rule that warns, "未定义协同岗位…".
abbrev pub warning_of : Ident
warning_of = 3

-- `submit_task` once the rules have passed.
unfoldable pub hand_in :
    Env → ResponseTask → TaskActionRequest → RuleEvaluationRecord → M ResponseTask
hand_in env old request evaluation = do
  ensure_transition old.status pending_approval
  moment ← now env
  let submitted = record old {
    status = pending_approval;
    last_rule_evaluation_id = some evaluation.evaluation_id;
    validation_warnings = map (λ c. warning_of) (filter_by is_soft_warning evaluation.checks);
    updated_at = moment;
  }
  save_task submitted
  task_event env submitted task_submitted request (some draft) (version_detail submitted.version)
  pure submitted

-- `unknown_dependencies` is empty: the event has every task that the draft waits for.
unfoldable pub dependencies_known : ResponseTask → Store → Bool
dependencies_known t s =
    let known = map (λ x. x.task_id) (list_tasks t.event_id s.tasks) in
    all (λ d. mem d known) t.dependencies

-- `submit_task` from the test of the dependencies on.
unfoldable pub submit_draft : Env → ResponseTask → TaskActionRequest → M ResponseTask
submit_draft env old request = do
  all_known ← gets (dependencies_known old)
  require all_known unknown_dependencies
  evaluation ← evaluate_task_rules env old request
  require (not (is_blocking evaluation.overall_outcome)) hard_blocked
  hand_in env old request evaluation

unfoldable pub submit_task : Env → Ident → TaskActionRequest → M ResponseTask
submit_task env task_id request = do
  require_role request.operator_role edit_roles
  old ← get_task task_id
  get_event old.event_id true
  require (is_draft old.status) not_draft
  assert_expected_version old request.expected_version
  submit_draft env old request
