-- ===== src/Response/Approval.antt =====
-- The decision on a task: `decide_task` and `_build_dispatch_outbox` of
-- flood_system/response_workflow/service.py, with `commit_task_decision` of
-- flood_system/storage/response_repository.py.
use flood_agent.Base.{
  ◌≡◌, arith, ◌+◌, Bool, true, false, not, ◌&&◌, ◌||◌, Option, none, some, [], ◌∷◌, ◌++◌, ◌==◌,
  if◌then◌else◌, Ident, is_some, codes,
}
use flood_agent.Response.Enums.{
  TaskStatus, draft, pending_approval, issued, ApprovalPolicy, commander_required, ApprovalDecision,
  approved, rejected,
}
use flood_agent.Response.Enums.{pending}
use flood_agent.Response.Task.{ResponseTask}
use flood_agent.Response.Requests.{simulated_dispatch, ApprovalRequest}
use flood_agent.Response.Records.{ApprovalRecord, OutboxMessage, dispatch_key, approval_rejected}
use flood_agent.Response.Records.{normal}
use flood_agent.Response.Entry.{task_approved_and_issued, task_rejected_to_draft, decision_detail}
use flood_agent.Response.Store.{Env, apr, outbox, put_task, find_message, find_message_key}
use flood_agent.Response.Exec.{
  commander_approval_required, own_high_risk_task, hard_blocked, not_pending_approval,
  duplicate_key, ok, err, M, choose, pure, gets, require, now, new_id, ◌>>=◌, ◌>>◌,
}
use flood_agent.Response.Guards.{
  require_role, get_event, get_task, assert_expected_version, ensure_transition, approval_roles,
  is_commander,
}
use flood_agent.Response.Rules.{current_rule_set, evaluate_task_rules}
use flood_agent.Response.Execution.{task_payload_hash}
use flood_agent.Response.Drafting.{is_blocking, save_task_version_snapshot}
use flood_agent.Response.Dispatch.{dispatch_outbox_message}
use flood_agent.Response.Flags.{is_feature_enabled}
use flood_agent.Response.Timeline.{task_event}

-- `_evidence_package_hash`
abbrev pub evidence_package_hash_of : Env → ResponseTask → Ident
evidence_package_hash_of env t = elim t.evidence_package_hash [
  | none ↦ env.evidence_digest t.source_evidence
  | some h ↦ if h == 0 then env.evidence_digest t.source_evidence else h
]

unfoldable pub new_message : Env → ResponseTask → ApprovalRecord → M OutboxMessage
new_message env t approval = do
  moment ← now env
  message_id ← new_id env outbox
  pure (record {
    message_id = message_id;
    event_id = t.event_id;
    task_id = t.task_id;
    idempotency_key = dispatch_key t.task_id t.version approval.task_payload_hash;
    payload_hash = approval.task_payload_hash;
    approval_id = approval.approval_id;
    task_version = t.version;
    status = pending;
    attempts = 0;
    last_error = none;
    simulation_scenario = normal;
    gateway_status = none;
    external_request_id = none;
    trace_id = none;
    callback_count = 0;
    created_at = moment;
    updated_at = moment;
    sent_at = none;
  })

abbrev pub message_or_new :
    Env → ResponseTask → ApprovalRecord → Option OutboxMessage → M OutboxMessage
message_or_new env t approval (some existing) = pure existing
message_or_new env t approval none = new_message env t approval

-- `_build_dispatch_outbox`
unfoldable pub build_dispatch_outbox : Env → ResponseTask → ApprovalRecord → M OutboxMessage
build_dispatch_outbox env t approval = do
  existing ← gets (λ s.
      find_message_key (dispatch_key t.task_id t.version approval.task_payload_hash)
        s.outbox_messages)
  message_or_new env t approval existing

-- `commit_task_decision` with a message: one transaction, which fails as a whole where the id or
-- the idempotency key of the message is stored already.
unfoldable pub commit_with_message : ApprovalRecord → ResponseTask → OutboxMessage → M (Unit {0})
commit_with_message approval t m s =
    if is_some (find_message m.message_id s.outbox_messages)
      || is_some (find_message_key m.idempotency_key s.outbox_messages)
    then (err duplicate_key, s)
    else (
      ok tt,
      record s {
        approvals = s.approvals ++ approval ∷ [];
        outbox_messages = s.outbox_messages ++ m ∷ [];
        tasks = put_task t s.tasks;
      },
    )

-- `commit_task_decision` with no message.
unfoldable pub commit_decision : ApprovalRecord → ResponseTask → M (Unit {0})
commit_decision approval t s =
    (ok tt, record s { approvals = s.approvals ++ approval ∷ []; tasks = put_task t s.tasks })

unfoldable pub is_pending_approval : TaskStatus → Bool
is_pending_approval pending_approval = true
is_pending_approval _ = false

pub pending_lem : (t : TaskStatus) → is_pending_approval t ≡ true → t ≡ pending_approval
unfolding is_pending_approval
pending_lem t h = ground arith

unfoldable pub needs_commander : ApprovalPolicy → Bool
needs_commander commander_required = true
needs_commander _ = false

unfoldable pub is_approval : ApprovalDecision → Bool
is_approval approved = true
is_approval rejected = false

-- The dispatch that follows an approval if the flag is on.
unfoldable pub dispatch_if_enabled : Env → ResponseTask → OutboxMessage → M (Unit {0})
dispatch_if_enabled env t m = do
  flags ← gets (λ s. s.flags)
  choose (is_feature_enabled flags simulated_dispatch env.environment (some t.event_id) none none)
      (dispatch_outbox_message env m normal >> pure tt) (pure tt)

-- The branch of an approval, from `ensure_transition` on.
unfoldable pub approve : Env → ResponseTask → ApprovalRequest → ApprovalRecord → M ResponseTask
approve env old request approval = do
  ensure_transition old.status issued
  m ← build_dispatch_outbox env old approval
  moment ← now env
  let changed = record old {
    status = issued;
    approved_version = some old.version;
    approval_payload_hash = some approval.task_payload_hash;
    evidence_package_hash = some approval.evidence_package_hash;
    rule_set_version = current_rule_set;
    dispatch_message_id = some m.message_id;
    updated_at = moment;
  }
  commit_with_message approval changed m
  dispatch_if_enabled env changed m
  task_event env changed task_approved_and_issued request.base (some old.status) (
      decision_detail approval.approval_id approval.task_payload_hash approval.evidence_package_hash
        changed.dispatch_message_id request.note)
  pure changed

-- The branch of a rejection.
unfoldable pub send_back : Env → ResponseTask → ApprovalRequest → ApprovalRecord → M ResponseTask
send_back env old request approval = do
  ensure_transition old.status draft
  moment ← now env
  let changed = record old { status = draft; version = old.version + 1; updated_at = moment }
  commit_decision approval changed
  save_task_version_snapshot env changed approval_rejected (codes "status" ∷ codes "version" ∷ [])
      request.operator_id request.terminal_id request.note
  task_event env changed task_rejected_to_draft request.base (some old.status) (
      decision_detail approval.approval_id approval.task_payload_hash approval.evidence_package_hash
        changed.dispatch_message_id request.note)
  pure changed

unfoldable pub decide_task : Env → Ident → ApprovalRequest → M ResponseTask
decide_task env task_id request = do
  require_role request.operator_role approval_roles
  old ← get_task task_id
  get_event old.event_id true
  require (is_pending_approval old.status) not_pending_approval
  assert_expected_version old request.expected_version
  require (not (needs_commander old.approval_policy) || is_commander request.operator_role)
      commander_approval_required
  require (not (needs_commander old.approval_policy && old.drafted_by == request.operator_id))
      own_high_risk_task
  evaluation ← evaluate_task_rules env old request.base
  require (not (is_approval request.decision && is_blocking evaluation.overall_outcome))
      hard_blocked
  approval_id ← new_id env apr
  moment ← now env
  let approval : ApprovalRecord = record {
    approval_id = approval_id;
    event_id = old.event_id;
    task_id = old.task_id;
    task_version = old.version;
    decision = request.decision;
    operator_id = request.operator_id;
    operator_role = request.operator_role;
    note = request.note;
    created_at = moment;
    task_payload_hash = task_payload_hash env old;
    evidence_package_hash = evidence_package_hash_of env old;
    task_schema_version = old.task_schema_version;
    rule_set_version = current_rule_set;
    rule_evaluation_id = evaluation.evaluation_id;
  }
  choose (is_approval request.decision) (approve env old request approval)
      (send_back env old request approval)
