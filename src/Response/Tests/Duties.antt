-- ===== src/Response/Tests/Duties.antt =====
-- Calls on small stores: who decides, what is refused.
use flood_agent.Base.{
  ◌≡◌, refl, true, false, not, ◌&&◌, ◌||◌, ◌==◌, if◌then◌else◌, some, none, [], ◌∷◌, strip, all,
  is_empty, mem,
}
use flood_agent.Response.Enums.{
  duty_officer, reviewer, commander, liaison, TaskStatus, draft, pending_approval,
  pending_verification, issued, in_progress, completed, active, requested, DeadlineExtensionStatus,
}
use flood_agent.Response.Enums
use flood_agent.Response.Transitions.{is_terminal, can_transition}
use flood_agent.Response.Task.{ResponseTask}
use flood_agent.Response.Requests.{
  TaskActionRequest, TaskUpdateRequest, TaskAssignmentRequest, ApprovalRequest, FeedbackRequest,
  DeadlineExtensionRequest, DeadlineExtensionDecisionRequest,
}
use flood_agent.Response.Records.{DeadlineExtensionRecord}
use flood_agent.Response.Store.{
  Store, find_task, find_event, find_extension, list_feedback, list_tasks,
}
use flood_agent.Response.Exec.{◌>>=◌}
use flood_agent.Response.Guards.{
  get_task, get_event, is_truthy, is_ident, version_fits, is_closed, is_commander, edit_roles,
  approval_roles,
}
use flood_agent.Response.Rules.{
  evaluate_task_rules, evaluation_of, current_checks, overall_outcome, is_confirmed, deadline_valid,
  required_complete, package_ok, is_bound, rule_checks,
}
use flood_agent.Response.Rules.Verdict.{rule_checks-blocking_iff}
use flood_agent.Response.Drafting.{
  update_task, submit_task, submit_draft, hand_in, is_draft, dependencies_known, is_blocking,
  save_task_version_snapshot,
}
use flood_agent.Response.Approval.{
  decide_task, send_back, is_pending_approval, needs_commander, is_approval, commit_decision,
}
use flood_agent.Response.Ending.{
  verify_completion, is_pending_verification, last_submitter, cancel_task, take_over_task,
}
use flood_agent.Response.Execution.{acknowledge_task, start_task, assign_task}
use flood_agent.Response.Feedback.{submit_feedback}
use flood_agent.Response.Extensions.{
  request_deadline_extension, decide_deadline_extension, settle_extension, is_requested,
}
use flood_agent.Response.Sweep.{close_event}
use flood_agent.Response.Timeline.{task_event, record_entry}
use flood_agent.Response.Duties.{
  verify_completion-two_people, submit_task-passed, decide_task-two_people,
  decide_deadline_extension-two_people,
}
use flood_agent.Response.Duties.Closing.{
  returns, is_open, close_event-returns_iff, closed_event-refuses,
}
use flood_agent.Response.Duties.Stale.{stale_version-refused}
use flood_agent.Response.Tests.{test_env, task_in, event_in, holding, act_as, returned_or}

abbrev checked_store : Store
checked_store = holding active (task_in pending_verification ∷ [])

abbrev verified_task : ResponseTask
verified_task = record (task_in completed) { updated_at = 100 }

verify_completion-two_people_example :
    (t : ResponseTask) × (find_task 5 checked_store.tasks ≡ some t)
    × (edit_roles reviewer ≡ true)
    × (t.status ≡ pending_verification)
    × (is_ident (last_submitter (list_feedback 5 checked_store.feedback)) 32 ≡ false)
    × ((is_truthy t.assignee_id && is_ident t.assignee_id 32) ≡ false)
    × (completed ≡ (if true then completed else in_progress))
unfolding verify_completion edit_roles get_task is_pending_verification is_truthy is_ident
    can_transition task_event record_entry ◌>>=◌
verify_completion-two_people_example =
    verify_completion-two_people test_env 5 true (act_as reviewer) checked_store verified_task refl

abbrev pending_store : Store
pending_store = holding active (task_in pending_approval ∷ [])

abbrev rejection : ApprovalRequest
rejection = record { base = act_as reviewer; decision = Enums.ApprovalDecision.rejected }

abbrev returned_task : ResponseTask
returned_task = returned_or (task_in draft) (decide_task test_env 5 rejection pending_store).0

decide_task-two_people_example :
    (t : ResponseTask) × (find_task 5 pending_store.tasks ≡ some t)
    × (approval_roles reviewer ≡ true)
    × (t.status ≡ pending_approval)
    × ((not (needs_commander t.approval_policy)
          || is_commander reviewer && not (t.drafted_by == 32))
        ≡ true)
    × ((is_approval Enums.ApprovalDecision.rejected
          && is_blocking (overall_outcome (current_checks t pending_store)))
        ≡ false)
unfolding decide_task approval_roles get_task get_event is_closed is_pending_approval version_fits
    needs_commander is_commander is_approval send_back commit_decision can_transition
    save_task_version_snapshot task_event record_entry ◌>>=◌ evaluate_task_rules is_blocking
    evaluation_of current_checks rule_checks
decide_task-two_people_example =
    decide_task-two_people test_env 5 rejection pending_store returned_task refl

abbrev draft_store : Store
draft_store = holding active (task_in draft ∷ [])

abbrev submitted_task : ResponseTask
submitted_task =
    returned_or (task_in draft) (submit_task test_env 5 (act_as duty_officer) draft_store).0

submit_task-passed_example :
    (t : ResponseTask) × (find_task 5 draft_store.tasks ≡ some t)
    × (edit_roles duty_officer ≡ true)
    × (t.status ≡ draft)
    × (version_fits t.version none ≡ true)
    × (dependencies_known t draft_store ≡ true)
    × (is_blocking (overall_outcome (current_checks t draft_store)) ≡ false)
    × (submitted_task.status ≡ pending_approval)
unfolding submit_task submit_draft hand_in edit_roles get_task get_event is_closed is_draft
    version_fits dependencies_known can_transition task_event record_entry ◌>>=◌ evaluate_task_rules
    is_blocking evaluation_of current_checks rule_checks is_confirmed deadline_valid
    required_complete strip
submit_task-passed_example =
    submit_task-passed test_env 5 (act_as duty_officer) draft_store submitted_task refl

abbrev asked_extension : DeadlineExtensionRecord
asked_extension = record {
  extension_id = 8;
  event_id = 1;
  task_id = 5;
  task_version = 3;
  status = requested;
  original_start_deadline_at = none;
  original_completion_deadline_at = 120;
  original_verification_deadline_at = none;
  proposed_start_deadline_at = none;
  proposed_completion_deadline_at = 150;
  proposed_verification_deadline_at = none;
  request_reason = [];
  requested_by = 34;
  requested_by_role = liaison;
  decided_by = none;
  decision_reason = [];
  created_at = 80;
  decided_at = none;
}

abbrev extension_store : Store
extension_store = record (holding active (task_in in_progress ∷ [])) {
  extensions = asked_extension ∷ [];
}

abbrev extension_request : DeadlineExtensionDecisionRequest
extension_request = record { base = act_as reviewer; approved = true; reason = [] }

abbrev settled_extension : DeadlineExtensionRecord
settled_extension =
    returned_or asked_extension
      (decide_deadline_extension test_env 8 extension_request extension_store).0

decide_deadline_extension-two_people_example :
    (a : DeadlineExtensionRecord) × (find_extension 8 extension_store.extensions ≡ some a)
    × (approval_roles reviewer ≡ true)
    × (is_requested a.status ≡ true)
    × ((a.requested_by == 32) ≡ false)
    × (settled_extension.status ≡ DeadlineExtensionStatus.approved)
    × (settled_extension.decided_by ≡ some 32)
unfolding decide_deadline_extension settle_extension approval_roles is_requested get_task task_event
    record_entry ◌>>=◌
decide_deadline_extension-two_people_example =
    decide_deadline_extension-two_people test_env 8 extension_request extension_store
      settled_extension refl

rule_checks-blocking_iff_example :
    is_blocking (overall_outcome (rule_checks (task_in draft) none none))
    ≡ not (
        is_confirmed none
        && deadline_valid (task_in draft)
        && required_complete (task_in draft)
        && (not false || package_ok (task_in draft) none && is_bound (task_in draft) none)
        && not (mem 5 []))
rule_checks-blocking_iff_example = rule_checks-blocking_iff (task_in draft) none none

abbrev ended_store : Store
ended_store = holding active (task_in completed ∷ [])

close_event-returns_iff_example :
    returns (close_event test_env 1 (act_as commander) ended_store).0 ≡ (
      approval_roles commander
      && is_open (find_event 1 ended_store.events)
      && not (is_empty (list_tasks 1 ended_store.tasks))
      && all (λ t. is_terminal t.status) (list_tasks 1 ended_store.tasks))
close_event-returns_iff_example = close_event-returns_iff test_env 1 (act_as commander) ended_store

abbrev edit_of : TaskActionRequest → TaskUpdateRequest
edit_of base = record {
  base = base;
  changes = record {
    title = some (0x7a ∷ []);
    action = none;
    responsible_organization = none;
    responsible_role = none;
    cooperate_roles = none;
    deadline_at = none;
    acknowledge_deadline_at = none;
    required_evidence = none;
    plan_basis = none;
    approval_policy = none;
    escalation_rule = none;
    dependencies = none;
    grounding_summary = none;
    evidence_role_coverage = none;
    source_evidence = none;
    validation_warnings = none;
  };
}

abbrev assignment : TaskAssignmentRequest
assignment = record {
  base = act_as liaison;
  assignee_id = 36;
  assignee_name = 37;
  assignee_role = Enums.field_operator;
  reason = [];
}

abbrev report : FeedbackRequest
report = record {
  base = act_as liaison;
  summary = 0x61 ∷ [];
  evidence = [];
  blocked_reason = none;
  resource_gap = none;
  completion_percent = none;
}

abbrev over_store : Store
over_store = holding Enums.closed (task_in draft ∷ [])

closed_event-refuses_example :
    (returns (update_task test_env 5 (edit_of (act_as reviewer)) over_store).0 ≡ false)
    × (returns (submit_task test_env 5 (act_as reviewer) over_store).0 ≡ false)
    × (returns (decide_task test_env 5 rejection over_store).0 ≡ false)
    × (returns (acknowledge_task test_env 5 (act_as reviewer) over_store).0 ≡ false)
    × (returns (start_task test_env 5 (act_as reviewer) over_store).0 ≡ false)
    × (returns (assign_task test_env 5 assignment over_store).0 ≡ false)
    × (returns (submit_feedback test_env 5 report over_store).0 ≡ false)
unfolding is_closed
closed_event-refuses_example =
    closed_event-refuses test_env 5 over_store (task_in draft) (event_in Enums.closed)
      (edit_of (act_as reviewer)) (act_as reviewer) rejection assignment report refl refl refl

-- A request that expects the version 2 of the task, which is at the version 3.
abbrev stale_act : TaskActionRequest
stale_act = record (act_as commander) { expected_version = some 2 }

abbrev stale_decision : ApprovalRequest
stale_decision = record { base = stale_act; decision = Enums.ApprovalDecision.rejected }

abbrev stale_extension : DeadlineExtensionRequest
stale_extension = record {
  base = stale_act;
  proposed_start_deadline_at = none;
  proposed_completion_deadline_at = 300;
  proposed_verification_deadline_at = none;
  reason = [];
}

stale_version-refused_example :
    (returns (update_task test_env 5 (edit_of stale_act) draft_store).0 ≡ false)
    × (returns (submit_task test_env 5 stale_act draft_store).0 ≡ false)
    × (returns (acknowledge_task test_env 5 stale_act draft_store).0 ≡ false)
    × (returns (cancel_task test_env 5 stale_act draft_store).0 ≡ false)
    × (returns (take_over_task test_env 5 stale_act draft_store).0 ≡ false)
    × (returns (decide_task test_env 5 stale_decision draft_store).0 ≡ false)
    × (returns (request_deadline_extension test_env 5 stale_extension draft_store).0 ≡ false)
stale_version-refused_example =
    stale_version-refused test_env 5 draft_store (task_in draft) 2 (edit_of stale_act) stale_act
      stale_decision stale_extension refl refl refl refl refl refl
