-- ===== src/Response/Execution.antt =====
-- Acknowledging, starting and assigning an issued task: `acknowledge_task`, `start_task` and
-- `assign_task` of flood_system/response_workflow/service.py.
use flood_agent.Base.{
  ◌+◌, Bool, true, false, not, ◌&&◌, ◌||◌, Option, none, some, if◌then◌else◌, Ident,
}
use flood_agent.Response.Enums.{
  OperatorRole, liaison, reviewer, commander, TaskStatus, issued, acknowledged, in_progress,
  blocked, escalated, partially_completed, taken_over,
}
use flood_agent.Response.Task.{ResponseTask, payload_of}
use flood_agent.Response.Requests.{TaskActionRequest, TaskAssignmentRequest}
use flood_agent.Response.Entry.{
  task_acknowledged, task_started, task_assigned, task_reassigned, assignment_detail,
}
use flood_agent.Response.Store.{Env, assign}
use flood_agent.Response.Exec.{
  not_assigned_operator, payload_mismatch, not_assigned, bad_assignee, bad_status, M, choose, pure,
  require, now, new_id, save_task, save_assignment, ◌>>=◌, ◌>>◌,
}
use flood_agent.Response.Guards.{
  require_role, get_event, get_task, assert_expected_version, transition, is_field_operator,
  is_ident, is_truthy,
}
use flood_agent.Response.Timeline.{task_event}

-- `_task_payload_hash`
abbrev pub task_payload_hash : Env → ResponseTask → Ident
task_payload_hash env t = env.payload_digest (payload_of t)

-- The check of `acknowledge_task` against the hash that the approval fixed.
unfoldable pub payload_intact : Env → ResponseTask → Bool
payload_intact env t =
    not (is_truthy t.approval_payload_hash)
    || is_ident t.approval_payload_hash (task_payload_hash env t)

unfoldable pub acknowledgeable : TaskStatus → Bool
acknowledgeable issued = true
acknowledgeable escalated = true
acknowledgeable blocked = true
acknowledgeable _ = false

unfoldable pub acknowledge_task : Env → Ident → TaskActionRequest → M ResponseTask
acknowledge_task env task_id request = do
  task ← get_task task_id
  assert_expected_version task request.expected_version
  require (payload_intact env task) payload_mismatch
  transition env task_id request acknowledgeable acknowledged task_acknowledged

unfoldable pub startable : TaskStatus → Bool
startable acknowledged = true
startable escalated = true
startable blocked = true
startable _ = false

abbrev is_set : Option Ident → Bool
is_set none = false
is_set (some _) = true

unfoldable pub start_task : Env → Ident → TaskActionRequest → M ResponseTask
start_task env task_id request = do
  task ← get_task task_id
  require (is_set task.assignee_id) not_assigned
  require (is_field_operator request.operator_role && is_ident task.assignee_id request.operator_id)
      not_assigned_operator
  transition env task_id request startable in_progress task_started

unfoldable pub assigning_roles : OperatorRole → Bool
assigning_roles liaison = true
assigning_roles reviewer = true
assigning_roles commander = true
assigning_roles _ = false

-- The statuses in which a task can be assigned, and in which feedback is taken.
unfoldable pub in_execution : TaskStatus → Bool
in_execution issued = true
in_execution acknowledged = true
in_execution in_progress = true
in_execution escalated = true
in_execution blocked = true
in_execution partially_completed = true
in_execution taken_over = true
in_execution _ = false

-- The rest of `assign_task` once the checks have passed.
unfoldable pub assign_to : Env → ResponseTask → TaskAssignmentRequest → M ResponseTask
assign_to env task request = do
  moment ← now env
  let assigned = record task {
    assignee_id = some request.assignee_id;
    assignee_name = some request.assignee_name;
    assignee_role = some request.assignee_role;
    assignment_version = task.assignment_version + 1;
    updated_at = moment;
  }
  assignment_id ← new_id env assign
  created ← now env
  save_task assigned
  save_assignment (record {
    assignment_id = assignment_id;
    event_id = task.event_id;
    task_id = task.task_id;
    assignment_version = task.assignment_version + 1;
    previous_assignee_id = task.assignee_id;
    assignee_id = request.assignee_id;
    assignee_name = request.assignee_name;
    assignee_role = request.assignee_role;
    reason = request.reason;
    assigned_by = request.operator_id;
    assigned_by_role = request.operator_role;
    terminal_id = request.terminal_id;
    created_at = created;
  })
  task_event env assigned (if is_truthy task.assignee_id then task_reassigned else task_assigned)
      request.base none
      (assignment_detail assignment_id (task.assignment_version + 1) task.assignee_id
        request.assignee_id request.reason)
  pure assigned

unfoldable pub assign_task : Env → Ident → TaskAssignmentRequest → M ResponseTask
assign_task env task_id request = do
  require_role request.operator_role assigning_roles
  require (is_field_operator request.assignee_role) bad_assignee
  task ← get_task task_id
  get_event task.event_id true
  require (in_execution task.status) bad_status
  choose (is_ident task.assignee_id request.assignee_id) (pure task) (assign_to env task request)
