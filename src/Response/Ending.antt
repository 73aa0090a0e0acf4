-- ===== src/Response/Ending.antt =====
-- Cancelling, taking over, waiving and verifying a task: `cancel_task`, `take_over_task`,
-- `waive_task` and `verify_completion` of flood_system/response_workflow/service.py.
use flood_agent.Base.{
  Bool, true, false, not, ◌&&◌, Option, none, some, List, leb, if◌then◌else◌, Ident, Text, strip,
  length, filter_by, last?,
}
use flood_agent.Response.Enums.{
  TaskStatus, in_progress, pending_verification, waived, cancelled, taken_over, completion,
}
use flood_agent.Response.Enums.{completed}
use flood_agent.Response.Transitions.{is_terminal, can_be_taken_over}
use flood_agent.Response.Task.{ResponseTask}
use flood_agent.Response.Requests.{TaskActionRequest}
use flood_agent.Response.Records.{TaskFeedback}
use flood_agent.Response.Entry.{
  task_cancelled, task_taken_over, task_waived, completion_verified, completion_returned,
  note_detail,
}
use flood_agent.Response.Store.{Env, list_feedback}
use flood_agent.Response.Exec.{
  own_result, own_task, not_pending_verification, bad_status, reason_required, terminal_task, M,
  choose, pure, gets, require, now, save_task, ◌>>=◌, ◌>>◌,
}
use flood_agent.Response.Guards.{
  require_role, get_task, assert_expected_version, ensure_transition, edit_roles, approval_roles,
  is_commander, is_ident, is_truthy,
}
use flood_agent.Response.Timeline.{task_event}

-- `len(request.note.strip()) >= 4`
unfoldable pub gives_reason : Text → Bool
gives_reason note = leb 4 (length (strip note))

unfoldable pub cancel_task : Env → Ident → TaskActionRequest → M ResponseTask
cancel_task env task_id request = do
  require_role request.operator_role is_commander
  require (gives_reason request.note) reason_required
  task ← get_task task_id
  assert_expected_version task request.expected_version
  require (not (is_terminal task.status)) terminal_task
  ensure_transition task.status cancelled
  moment ← now env
  let ended = record task { status = cancelled; updated_at = moment }
  save_task ended
  task_event env ended task_cancelled request (some task.status) (note_detail request.note)
  pure ended

-- The text "人工接管岗位".
abbrev takeover_post : Ident
takeover_post = 2

unfoldable pub take_over_task : Env → Ident → TaskActionRequest → M ResponseTask
take_over_task env task_id request = do
  require_role request.operator_role approval_roles
  require (gives_reason request.note) reason_required
  task ← get_task task_id
  assert_expected_version task request.expected_version
  require (can_be_taken_over task.status) bad_status
  ensure_transition task.status taken_over
  moment ← now env
  let taken = record task {
    status = taken_over;
    assignee_id = some request.operator_id;
    assignee_name = some takeover_post;
    assignee_role = some request.operator_role;
    updated_at = moment;
  }
  save_task taken
  task_event env taken task_taken_over request (some task.status) (note_detail request.note)
  pure taken

-- The early return of `waive_task`.
unfoldable pub already_over : TaskStatus → Bool
already_over completed = true
already_over waived = true
already_over _ = false

unfoldable pub waive_open : Env → ResponseTask → TaskActionRequest → M ResponseTask
waive_open env task request = do
  ensure_transition task.status waived
  moment ← now env
  let ended = record task { status = waived; updated_at = moment }
  save_task ended
  task_event env ended task_waived request (some task.status) (note_detail request.note)
  pure ended

unfoldable pub waive_task : Env → Ident → TaskActionRequest → M ResponseTask
waive_task env task_id request = do
  require_role request.operator_role is_commander
  task ← get_task task_id
  choose (already_over task.status) (pure task) (waive_open env task request)

unfoldable pub is_pending_verification : TaskStatus → Bool
is_pending_verification pending_verification = true
is_pending_verification _ = false

abbrev is_completion : TaskFeedback → Bool
is_completion f = elim f.category [ completion ↦ true | _ ↦ false ]

-- Who sent in the last completion feedback among these.
abbrev pub last_submitter : List TaskFeedback → Option Ident
last_submitter l = elim (last? (filter_by is_completion l)) [
  | none ↦ none
  | some f ↦ some f.operator_id
]

unfoldable pub verify_completion : Env → Ident → Bool → TaskActionRequest → M ResponseTask
verify_completion env task_id approved request = do
  require_role request.operator_role edit_roles
  task ← get_task task_id
  require (is_pending_verification task.status) not_pending_verification
  sent ← gets (λ s. list_feedback task_id s.feedback)
  require (not (is_ident (last_submitter sent) request.operator_id)) own_result
  require (not (is_truthy task.assignee_id && is_ident task.assignee_id request.operator_id))
      own_task
  let target = if approved then completed else in_progress
  ensure_transition task.status target
  moment ← now env
  let verified = record task { status = target; updated_at = moment }
  save_task verified
  task_event env verified (if approved then completion_verified else completion_returned) request
      (some task.status) (note_detail request.note)
  pure verified
