-- ===== src/Response/Guards.antt =====
-- The checks that the service methods begin with, `_transition`, and `_save_escalation`
-- (flood_system/response_workflow/service.py), with `ensure_transition` of state_machine.py.
use flood_agent.Base.{ℕ, Bool, true, false, not, ◌&&◌, Option, none, some, ◌==◌, Ident}
use flood_agent.Response.Enums.{
  OperatorRole, duty_officer, reviewer, commander, liaison, field_operator, admin, EventStatus,
  closed, TaskStatus,
}
use flood_agent.Response.Transitions.{can_transition}
use flood_agent.Response.Task.{ResponseTask}
use flood_agent.Response.Requests.{TaskActionRequest}
use flood_agent.Response.Records.{ResponseEvent, EscalationReason}
use flood_agent.Response.Entry.{Action, note_detail}
use flood_agent.Response.Store.{Env, esc, find_task, find_event}
use flood_agent.Response.Exec.{
  not_authorized, event_not_found, task_not_found, event_closed, version_conflict, bad_transition,
  M, pure, gets, require, or_raise, now, new_id, save_task, save_escalation, ◌>>=◌, ◌>>◌,
}
use flood_agent.Response.Timeline.{task_event}

-- `EDIT_ROLES`
unfoldable pub edit_roles : OperatorRole → Bool
edit_roles duty_officer = true
edit_roles reviewer = true
edit_roles commander = true
edit_roles admin = true
edit_roles _ = false

-- `APPROVAL_ROLES`
unfoldable pub approval_roles : OperatorRole → Bool
approval_roles reviewer = true
approval_roles commander = true
approval_roles _ = false

-- `EXECUTION_ROLES`
unfoldable pub execution_roles : OperatorRole → Bool
execution_roles liaison = true
execution_roles field_operator = true
execution_roles duty_officer = true
execution_roles reviewer = true
execution_roles commander = true
execution_roles _ = false

unfoldable pub is_commander : OperatorRole → Bool
is_commander commander = true
is_commander _ = false

unfoldable pub is_field_operator : OperatorRole → Bool
is_field_operator field_operator = true
is_field_operator _ = false

unfoldable pub is_closed : EventStatus → Bool
is_closed closed = true
is_closed _ = false

-- `_require_role`
abbrev pub require_role : OperatorRole → (OperatorRole → Bool) → M (Unit {0})
require_role role allowed = require (allowed role) not_authorized

-- `_event`
unfoldable pub get_event : Ident → Bool → M ResponseEvent
get_event event_id active = do
  found ← gets (λ s. find_event event_id s.events)
  event ← or_raise found event_not_found
  require (not (active && is_closed event.status)) event_closed
  pure event

-- `_task`
unfoldable pub get_task : Ident → M ResponseTask
get_task task_id = do found ← gets (λ s. find_task task_id s.tasks); or_raise found task_not_found

unfoldable pub version_fits : ℕ → Option ℕ → Bool
version_fits version none = true
version_fits version (some expected) = expected == version

-- `_assert_expected_version`
abbrev pub assert_expected_version : ResponseTask → Option ℕ → M (Unit {0})
assert_expected_version task expected =
    require (version_fits task.version expected) version_conflict

-- `ensure_transition`
abbrev pub ensure_transition : TaskStatus → TaskStatus → M (Unit {0})
ensure_transition source target = require (can_transition source target) bad_transition

-- An optional identifier that is set, to a text that is not empty.
unfoldable pub is_truthy : Option Ident → Bool
is_truthy none = false
is_truthy (some a) = not (a == 0)

unfoldable pub is_ident : Option Ident → Ident → Bool
is_ident none b = false
is_ident (some a) b = a == b

-- `_transition`
unfoldable pub transition :
    Env → Ident → TaskActionRequest → (TaskStatus → Bool) → TaskStatus → Action → M ResponseTask
transition env task_id request allowed_from target action = do
  require_role request.operator_role execution_roles
  task ← get_task task_id
  get_event task.event_id true
  assert_expected_version task request.expected_version
  require (allowed_from task.status) bad_transition
  ensure_transition task.status target
  moment ← now env
  let moved = record task { status = target; updated_at = moment }
  save_task moved
  task_event env moved action request (some task.status) (note_detail request.note)
  pure moved

-- `_save_escalation`; the record's advice is a function of its reason, and is left out.
unfoldable pub save_escalation_of :
    Env → ResponseTask → TaskStatus → EscalationReason → OperatorRole → M Ident
save_escalation_of env task previous reason target_role = do
  escalation_id ← new_id env esc
  moment ← now env
  save_escalation (record {
    escalation_id = escalation_id;
    event_id = task.event_id;
    task_id = task.task_id;
    reason = reason;
    previous_status = previous;
    target_role = target_role;
    created_at = moment;
  })
  pure escalation_id
