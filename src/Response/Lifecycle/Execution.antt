-- ===== src/Response/Lifecycle/Execution.antt =====
-- Acknowledging, starting and assigning are steps of the life of a task.
use flood_agent.Response.Exec.{◌>>=◌}
use flood_agent.Response.Guards.{get_event, get_task}
use flood_agent.Base.{◌≡◌, ◌⊎◌, inl, inr, refl, ◌+◌, Bool, true, some, none, arith, Ident}
use flood_agent.Response.Enums.{TaskStatus, acknowledged, in_progress}
use flood_agent.Response.Transitions.{can_transition}
use flood_agent.Response.Task.{ResponseTask}
use flood_agent.Response.Requests.{TaskActionRequest, TaskAssignmentRequest}
use flood_agent.Response.Store.{Env, Store, find_task, put_task}
use flood_agent.Response.Guards.{transition}
use flood_agent.Response.Execution.{
  acknowledge_task, start_task, assign_task, assign_to, acknowledgeable, startable,
}
use flood_agent.Response.Entry.{Action, task_acknowledged, task_started}
use flood_agent.Response.Timeline.{task_event}
use flood_agent.Response.Lifecycle.{Effect, Effect-of_task, Outcome-of_progress, amended}

pub transition_cases :
    (env : Env) (k : Ident) (r : TaskActionRequest) (allowed : TaskStatus → Bool)
    (target : TaskStatus) (a : Action) (s : Store) (t : ResponseTask)
    → find_task k s.tasks ≡ some t
    → let s' = (transition env k r allowed target a s).1 in
      let u = record t { status = target; updated_at = env.clock s.ticks } in
      (s'.tasks ≡ s.tasks)
      ⊎ ((can_transition t.status target ≡ true) × (s'.tasks ≡ put_task u s.tasks))
unfolding transition ◌>>=◌ get_event get_task task_event
transition_cases env k r allowed target a s t e = ground arith

module _ (env : Env) (k : Ident) (r : TaskActionRequest) (s : Store) where
  acknowledge_task_cases :
      (t : ResponseTask)
      → find_task k s.tasks ≡ some t
      → let s' = (acknowledge_task env k r s).1 in
        let u = record t { status = acknowledged; updated_at = env.clock s.ticks } in
        (s'.tasks ≡ s.tasks)
        ⊎ ((can_transition t.status acknowledged ≡ true) × (s'.tasks ≡ put_task u s.tasks))
  unfolding acknowledge_task ◌>>=◌ get_task
  acknowledge_task_cases t e =
      ground (arith, transition_cases env k r acknowledgeable acknowledged task_acknowledged s t e)

  acknowledge_task_missing :
      find_task k s.tasks ≡ none → (acknowledge_task env k r s).1.tasks ≡ s.tasks
  unfolding acknowledge_task ◌>>=◌ get_task
  acknowledge_task_missing e = ground arith

  pub acknowledge_task-Effect : Effect env s (acknowledge_task env k r s).1
  acknowledge_task-Effect =
      Effect-of_task env k s (acknowledge_task env k r s).1 acknowledge_task_missing λ t e.
        Outcome-of_progress env s (acknowledge_task env k r s).1 t acknowledged (env.clock s.ticks)
          refl (acknowledge_task_cases t e)

  start_task_cases :
      (t : ResponseTask)
      → find_task k s.tasks ≡ some t
      → let s' = (start_task env k r s).1 in
        let u = record t { status = in_progress; updated_at = env.clock s.ticks } in
        (s'.tasks ≡ s.tasks)
        ⊎ ((can_transition t.status in_progress ≡ true) × (s'.tasks ≡ put_task u s.tasks))
  unfolding start_task ◌>>=◌ get_task
  start_task_cases t e =
      ground (arith, transition_cases env k r startable in_progress task_started s t e)

  start_task_missing : find_task k s.tasks ≡ none → (start_task env k r s).1.tasks ≡ s.tasks
  unfolding start_task ◌>>=◌ get_task
  start_task_missing e = ground arith

  pub start_task-Effect : Effect env s (start_task env k r s).1
  start_task-Effect = Effect-of_task env k s (start_task env k r s).1 start_task_missing λ t e.
      Outcome-of_progress env s (start_task env k r s).1 t in_progress (env.clock s.ticks) refl
        (start_task_cases t e)

module _ (env : Env) (k : Ident) (r : TaskAssignmentRequest) (s : Store) where
  abbrev assigned_to : ResponseTask → ResponseTask
  assigned_to t = record t {
    assignee_id = some r.assignee_id;
    assignee_name = some r.assignee_name;
    assignee_role = some r.assignee_role;
    assignment_version = t.assignment_version + 1;
    updated_at = env.clock s.ticks;
  }

  assign_to_write :
      (t : ResponseTask) → (assign_to env t r s).1.tasks ≡ put_task (assigned_to t) s.tasks
  unfolding assign_to ◌>>=◌ task_event
  assign_to_write t = refl

  assign_task_cases :
      (t : ResponseTask)
      → find_task k s.tasks ≡ some t
      → let s' = (assign_task env k r s).1 in
        (s'.tasks ≡ s.tasks) ⊎ (s'.tasks ≡ put_task (assigned_to t) s.tasks)
  unfolding assign_task ◌>>=◌ get_event get_task
  assign_task_cases t e = ground (arith, assign_to_write t)

  assign_task_missing : find_task k s.tasks ≡ none → (assign_task env k r s).1.tasks ≡ s.tasks
  unfolding assign_task ◌>>=◌ get_event get_task
  assign_task_missing e = ground arith

  pub assign_task-Effect : Effect env s (assign_task env k r s).1
  assign_task-Effect = Effect-of_task env k s (assign_task env k r s).1 assign_task_missing λ t e.
      elim (assign_task_cases t e) [
        | inl same ↦ inl same
        | inr write ↦ inr (
          assigned_to t,
          amended (record { task_id = refl; event_id = refl; object_id = refl }) refl
              (refl, refl, refl),
          write,
        )
      ]
