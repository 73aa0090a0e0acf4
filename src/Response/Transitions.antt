-- ===== src/Response/Transitions.antt =====
-- flood_system/response_workflow/state_machine.py: the transitions that a task may make.
pub mod Laws
use flood_agent.Base.{Bool, true, false, not, ◌&&◌, ◌||◌}
use flood_agent.Response.Enums.{
  TaskStatus, draft, pending_approval, issued, acknowledged, in_progress, pending_verification,
  completed, escalated, waived, blocked, partially_completed, cancelled, taken_over,
}

-- `TERMINAL_TASK_STATUSES`
unfoldable pub is_terminal : TaskStatus → Bool
is_terminal completed = true
is_terminal waived = true
is_terminal cancelled = true
is_terminal _ = false

-- The pairs that `ALLOWED_TASK_TRANSITIONS` lists one by one.
listed_edge : TaskStatus → TaskStatus → Bool
listed_edge draft pending_approval = true
listed_edge pending_approval draft = true
listed_edge pending_approval issued = true
listed_edge issued acknowledged = true
listed_edge issued blocked = true
listed_edge issued escalated = true
listed_edge acknowledged in_progress = true
listed_edge acknowledged blocked = true
listed_edge acknowledged escalated = true
listed_edge in_progress blocked = true
listed_edge in_progress partially_completed = true
listed_edge in_progress pending_verification = true
listed_edge in_progress escalated = true
listed_edge blocked acknowledged = true
listed_edge blocked in_progress = true
listed_edge blocked escalated = true
listed_edge partially_completed pending_verification = true
listed_edge partially_completed blocked = true
listed_edge partially_completed escalated = true
listed_edge pending_verification completed = true
listed_edge pending_verification in_progress = true
listed_edge pending_verification escalated = true
listed_edge escalated acknowledged = true
listed_edge escalated in_progress = true
listed_edge escalated blocked = true
listed_edge taken_over pending_verification = true
listed_edge taken_over blocked = true
listed_edge _ _ = false

-- The pairs `(status, CANCELLED)` and `(status, WAIVED)` for every status that is not terminal.
ends : TaskStatus → TaskStatus → Bool
unfolding is_terminal
ends s cancelled = not (is_terminal s)
ends s waived = not (is_terminal s)
ends _ _ = false

-- The statuses from which a task can be taken over.
unfoldable pub can_be_taken_over : TaskStatus → Bool
can_be_taken_over issued = true
can_be_taken_over acknowledged = true
can_be_taken_over in_progress = true
can_be_taken_over blocked = true
can_be_taken_over escalated = true
can_be_taken_over partially_completed = true
can_be_taken_over _ = false

taken : TaskStatus → TaskStatus → Bool
unfolding can_be_taken_over
taken s taken_over = can_be_taken_over s
taken _ _ = false

unfoldable pub can_transition : TaskStatus → TaskStatus → Bool
unfolding listed_edge ends taken
can_transition source target =
    listed_edge source target || ends source target || taken source target
