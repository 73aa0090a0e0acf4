-- ===== src/Response/Extensions.antt =====
-- Deadline extensions: `request_deadline_extension` and `decide_deadline_extension` of
-- flood_system/response_workflow/service.py.
use flood_agent.Base.{
  Bool, true, false, not, Option, none, some, [], ◌==◌, ltb, Ident, Time, or_else, with_default,
}
use flood_agent.Response.Enums.{DeadlineExtensionStatus, requested}
use flood_agent.Response.Transitions.{can_be_taken_over}
use flood_agent.Response.Task.{ResponseTask}
use flood_agent.Response.Requests.{DeadlineExtensionRequest, DeadlineExtensionDecisionRequest}
use flood_agent.Response.Records.{DeadlineExtensionRecord}
use flood_agent.Response.Entry.{
  deadline_extension_requested, deadline_extension_approved, deadline_extension_rejected,
  extension_detail,
}
use flood_agent.Response.Store.{Env, ext, find_extension}
use flood_agent.Response.Exec.{
  own_extension, extension_not_found, bad_status, not_later, already_decided, M, pure, gets,
  or_raise, require, now, new_id, save_task, save_extension, ◌>>=◌, ◌>>◌,
}
use flood_agent.Response.Guards.{
  require_role, get_task, assert_expected_version, execution_roles, approval_roles,
}
use flood_agent.Response.Timeline.{task_event}

-- `task.effective_completion_deadline_at or task.deadline_at`
abbrev pub completion_deadline : ResponseTask → Time
completion_deadline t = with_default t.effective_completion_deadline_at t.deadline_at

abbrev pub start_deadline : ResponseTask → Option Time
start_deadline t = or_else t.effective_start_deadline_at t.start_deadline_at

abbrev pub verification_deadline : ResponseTask → Option Time
verification_deadline t = or_else t.effective_verification_deadline_at t.verification_deadline_at

-- The statuses in which an extension can be asked for are those in which a task can be taken over.
unfoldable pub request_deadline_extension :
    Env → Ident → DeadlineExtensionRequest → M DeadlineExtensionRecord
request_deadline_extension env task_id request = do
  require_role request.operator_role execution_roles
  task ← get_task task_id
  assert_expected_version task request.expected_version
  require (can_be_taken_over task.status) bad_status
  require (ltb (completion_deadline task) request.proposed_completion_deadline_at) not_later
  extension_id ← new_id env ext
  moment ← now env
  let asked : DeadlineExtensionRecord = record {
    extension_id = extension_id;
    event_id = task.event_id;
    task_id = task.task_id;
    task_version = task.version;
    status = requested;
    original_start_deadline_at = start_deadline task;
    original_completion_deadline_at = completion_deadline task;
    original_verification_deadline_at = verification_deadline task;
    proposed_start_deadline_at = request.proposed_start_deadline_at;
    proposed_completion_deadline_at = request.proposed_completion_deadline_at;
    proposed_verification_deadline_at = request.proposed_verification_deadline_at;
    request_reason = request.reason;
    requested_by = request.operator_id;
    requested_by_role = request.operator_role;
    decided_by = none;
    decision_reason = [];
    created_at = moment;
    decided_at = none;
  }
  save_extension asked
  task_event env task deadline_extension_requested request.base none
      (extension_detail extension_id request.reason)
  pure asked

unfoldable pub is_requested : DeadlineExtensionStatus → Bool
is_requested requested = true
is_requested _ = false

-- The task with the deadlines that an approved extension proposes.
abbrev pub extended_task : ResponseTask → DeadlineExtensionRecord → Time → ResponseTask
extended_task task asked moment = record task {
  effective_start_deadline_at = or_else asked.proposed_start_deadline_at (start_deadline task);
  effective_completion_deadline_at = some asked.proposed_completion_deadline_at;
  effective_verification_deadline_at =
      or_else asked.proposed_verification_deadline_at (verification_deadline task);
  active_extension_id = some asked.extension_id;
  updated_at = moment;
}

-- What follows the checks: the record is saved, then the task if the extension is approved.
unfoldable pub settle_extension :
    Env
    → ResponseTask
    → DeadlineExtensionRecord
    → DeadlineExtensionDecisionRequest
    → Bool
    → M DeadlineExtensionRecord
settle_extension env task asked request true = do
  moment ← now env
  let settled = record asked {
    status = DeadlineExtensionStatus.approved;
    decided_by = some request.operator_id;
    decision_reason = request.reason;
    decided_at = some moment;
  }
  save_extension settled
  save_task (extended_task task settled moment)
  task_event env (extended_task task settled moment) deadline_extension_approved request.base none
      (extension_detail asked.extension_id request.reason)
  pure settled
settle_extension env task asked request false = do
  moment ← now env
  let settled = record asked {
    status = DeadlineExtensionStatus.rejected;
    decided_by = some request.operator_id;
    decision_reason = request.reason;
    decided_at = some moment;
  }
  save_extension settled
  task_event env task deadline_extension_rejected request.base none
      (extension_detail asked.extension_id request.reason)
  pure settled

unfoldable pub decide_deadline_extension :
    Env → Ident → DeadlineExtensionDecisionRequest → M DeadlineExtensionRecord
decide_deadline_extension env extension_id request = do
  require_role request.operator_role approval_roles
  found ← gets (λ s. find_extension extension_id s.extensions)
  asked ← or_raise found extension_not_found
  require (is_requested asked.status) already_decided
  require (not (asked.requested_by == request.operator_id)) own_extension
  task ← get_task asked.task_id
  settle_extension env task asked request request.approved
