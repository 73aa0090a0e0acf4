-- ===== src/Response/Sweep.antt =====
-- The deadline sweep and the closing of an event: `run_deadline_sweep` and `close_event` of
-- flood_system/response_workflow/service.py. The dashboard that closing returns is read from the
-- tables and is left out: the model returns the closed event.
pub mod Complete
use flood_agent.Base.{
  ℕ, Bool, true, false, not, ◌&&◌, Option, none, some, List, [], ◌∷◌, ◌==◌, ltb, if◌then◌else◌,
  Ident, Time, codes, all, is_empty, length, with_default,
}
use flood_agent.Response.Enums.{
  OperatorRole, reviewer, TaskStatus, issued, acknowledged, in_progress, partially_completed,
  pending_verification, escalated, active,
}
use flood_agent.Response.Enums
use flood_agent.Response.Transitions.{is_terminal}
use flood_agent.Response.Task.{ResponseTask}
use flood_agent.Response.Requests.{TaskActionRequest}
use flood_agent.Response.Records.{
  ResponseEvent, DeadlineType, start, completion, verification, overdue,
}
use flood_agent.Response.Records
use flood_agent.Response.Entry.{
  event, event_closed, deadline_escalated, overdue_detail, event_note, close_detail,
}
use flood_agent.Response.Store.{Env, list_tasks}
use flood_agent.Response.Exec.{
  no_tasks, incomplete_tasks, M, pure, gets, require, now, save_task, save_event, ◌>>=◌, ◌>>◌,
}
use flood_agent.Response.Guards.{
  require_role, get_event, ensure_transition, edit_roles, approval_roles, save_escalation_of,
}
use flood_agent.Response.Extensions.{completion_deadline, start_deadline, verification_deadline}
use flood_agent.Response.Review.{generate_review_draft}
use flood_agent.Response.Timeline.{record_entry, task_event}

abbrev pub is_past : Option Time → Time → Bool
is_past none moment = false
is_past (some d) moment = ltb d moment

abbrev pub when : Bool → DeadlineType → Option DeadlineType
when true d = some d
when false d = none

-- The deadline of which a task in this status is past, by the branches of the sweep.
abbrev pub overdue_in : TaskStatus → ResponseTask → Time → Option DeadlineType
overdue_in issued t moment = when (ltb t.acknowledge_deadline_at moment) DeadlineType.acknowledge
overdue_in acknowledged t moment = when (is_past (start_deadline t) moment) start
overdue_in in_progress t moment = when (ltb (completion_deadline t) moment) completion
overdue_in partially_completed t moment = when (ltb (completion_deadline t) moment) completion
overdue_in TaskStatus.blocked t moment = when (ltb (completion_deadline t) moment) completion
overdue_in pending_verification t moment =
    when (is_past (verification_deadline t) moment) verification
overdue_in _ t moment = none

abbrev pub overdue_type : ResponseTask → Time → Option DeadlineType
overdue_type t moment = overdue_in t.status t moment

-- The body of the loop for a task past a deadline.
unfoldable pub escalate : Env → TaskActionRequest → ResponseTask → DeadlineType → M ResponseTask
escalate env request old deadline_type = do
  ensure_transition old.status escalated
  moment ← now env
  let changed = record old { status = escalated; updated_at = moment }
  save_task changed
  escalation_id ← save_escalation_of env changed old.status (overdue deadline_type) reviewer
  task_event env changed deadline_escalated request (some old.status)
      (overdue_detail (overdue deadline_type) deadline_type escalation_id)
  pure changed

abbrev push : ResponseTask → List ResponseTask → M (List ResponseTask)
push t ts = pure (t ∷ ts)

-- The loop over the tasks of the event.
unfoldable pub sweep_tasks :
    Env → TaskActionRequest → Time → List ResponseTask → M (List ResponseTask)
sweep_tasks env request moment [] = pure []
sweep_tasks env request moment (t ∷ ts) =
    let rest = sweep_tasks env request moment ts in
    elim (overdue_type t moment) [
      | none ↦ rest
      | some d ↦ (escalate env request t d >>= λ changed. rest >>= push changed)
    ]

-- The parameter `now` of the method.
abbrev pub chosen_moment : Env → Option Time → M Time
chosen_moment env none = now env
chosen_moment env (some moment) = pure moment

unfoldable pub run_deadline_sweep :
    Env → Ident → TaskActionRequest → Option Time → M (List ResponseTask)
run_deadline_sweep env event_id request given_moment = do
  require_role request.operator_role edit_roles
  get_event event_id true
  moment ← chosen_moment env given_moment
  tasks ← gets (λ s. list_tasks event_id s.tasks)
  sweep_tasks env request moment tasks

-- `close_event` once the checks have passed.
unfoldable pub finish_closing :
    Env → Ident → TaskActionRequest → ResponseEvent → ℕ → M ResponseEvent
finish_closing env event_id request old task_count = do
  updated ← now env
  closed_time ← now env
  let closed_one = record old {
    status = Enums.closed;
    updated_at = updated;
    closed_at = some closed_time;
    closed_by = some request.operator_id;
  }
  save_event closed_one
  record_entry env (record {
    event_id = event_id;
    task_id = none;
    object_id = none;
    entry_type = event;
    action = event_closed;
    actor_id = request.operator_id;
    actor_role = request.operator_role;
    terminal_id = request.terminal_id;
    before_state = event_note active;
    after_state = event_note Enums.closed;
    detail = close_detail request.note task_count;
  })
  generate_review_draft env event_id (record {
    operator_id = request.operator_id;
    operator_role = request.operator_role;
    note = codes "事件关闭时自动生成复盘草稿";
    terminal_id = request.terminal_id;
    expected_version = none;
  })
  pure closed_one

unfoldable pub close_event : Env → Ident → TaskActionRequest → M ResponseEvent
close_event env event_id request = do
  require_role request.operator_role approval_roles
  old ← get_event event_id true
  tasks ← gets (λ s. list_tasks event_id s.tasks)
  require (not (is_empty tasks)) no_tasks
  require (all (λ t. is_terminal t.status) tasks) incomplete_tasks
  finish_closing env event_id request old (length tasks)
