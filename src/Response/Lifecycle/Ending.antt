-- ===== src/Response/Lifecycle/Ending.antt =====
-- Cancelling, taking over, waiving and verifying are steps of the life of a task.
use flood_agent.Response.Exec.{◌>>=◌}
use flood_agent.Response.Guards.{get_task}
use flood_agent.Response.Ending.{waive_open}
use flood_agent.Base.{◌≡◌, ◌⊎◌, inl, inr, refl, Bool, true, some, none, arith, Ident, if◌then◌else◌}
use flood_agent.Response.Enums.{TaskStatus, cancelled, waived, taken_over, completed, in_progress}
use flood_agent.Response.Transitions.{can_transition}
use flood_agent.Response.Task.{ResponseTask}
use flood_agent.Response.Requests.{TaskActionRequest}
use flood_agent.Response.Store.{Env, Store, find_task, put_task}
use flood_agent.Response.Ending.{cancel_task, take_over_task, waive_task, verify_completion}
use flood_agent.Response.Timeline.{task_event}
use flood_agent.Response.Lifecycle.{Effect, Effect-of_task, Outcome-of_progress, progressed}

module _ (env : Env) (k : Ident) (r : TaskActionRequest) (s : Store) where
  cancel_task_cases :
      (t : ResponseTask)
      → find_task k s.tasks ≡ some t
      → let s' = (cancel_task env k r s).1 in
        let u = record t { status = cancelled; updated_at = env.clock s.ticks } in
        (s'.tasks ≡ s.tasks)
        ⊎ ((can_transition t.status cancelled ≡ true) × (s'.tasks ≡ put_task u s.tasks))
  unfolding cancel_task ◌>>=◌ get_task task_event
  cancel_task_cases t e = ground arith

  cancel_task_missing : find_task k s.tasks ≡ none → (cancel_task env k r s).1.tasks ≡ s.tasks
  unfolding cancel_task ◌>>=◌ get_task
  cancel_task_missing e = ground arith

  pub cancel_task-Effect : Effect env s (cancel_task env k r s).1
  cancel_task-Effect = Effect-of_task env k s (cancel_task env k r s).1 cancel_task_missing λ t e.
      Outcome-of_progress env s (cancel_task env k r s).1 t cancelled (env.clock s.ticks) refl
        (cancel_task_cases t e)

  waive_task_cases :
      (t : ResponseTask)
      → find_task k s.tasks ≡ some t
      → let s' = (waive_task env k r s).1 in
        let u = record t { status = waived; updated_at = env.clock s.ticks } in
        (s'.tasks ≡ s.tasks)
        ⊎ ((can_transition t.status waived ≡ true) × (s'.tasks ≡ put_task u s.tasks))
  unfolding waive_task ◌>>=◌ get_task waive_open task_event
  waive_task_cases t e = ground arith

  waive_task_missing : find_task k s.tasks ≡ none → (waive_task env k r s).1.tasks ≡ s.tasks
  unfolding waive_task ◌>>=◌ get_task waive_open
  waive_task_missing e = ground arith

  pub waive_task-Effect : Effect env s (waive_task env k r s).1
  waive_task-Effect = Effect-of_task env k s (waive_task env k r s).1 waive_task_missing λ t e.
      Outcome-of_progress env s (waive_task env k r s).1 t waived (env.clock s.ticks) refl
        (waive_task_cases t e)

  abbrev taken_by : ResponseTask → ResponseTask
  taken_by t = record t {
    status = taken_over;
    assignee_id = some r.operator_id;
    assignee_name = some 2;
    assignee_role = some r.operator_role;
    updated_at = env.clock s.ticks;
  }

  take_over_task_cases :
      (t : ResponseTask)
      → find_task k s.tasks ≡ some t
      → let s' = (take_over_task env k r s).1 in
        (s'.tasks ≡ s.tasks)
        ⊎ ((can_transition t.status taken_over ≡ true) × (s'.tasks ≡ put_task (taken_by t) s.tasks))
  unfolding take_over_task ◌>>=◌ get_task task_event
  take_over_task_cases t e = ground arith

  take_over_task_missing : find_task k s.tasks ≡ none → (take_over_task env k r s).1.tasks ≡ s.tasks
  unfolding take_over_task ◌>>=◌ get_task
  take_over_task_missing e = ground arith

  pub take_over_task-Effect : Effect env s (take_over_task env k r s).1
  take_over_task-Effect =
      Effect-of_task env k s (take_over_task env k r s).1 take_over_task_missing λ t e.
        elim (take_over_task_cases t e) [
          | inl same ↦ inl same
          | inr (can, write) ↦ inr (
            taken_by t,
            progressed (record { task_id = refl; event_id = refl; object_id = refl }) (can, refl)
                (refl, refl, refl),
            write,
          )
        ]

module _ (env : Env) (k : Ident) (b : Bool) (r : TaskActionRequest) (s : Store) where
  abbrev verdict : TaskStatus
  verdict = if b then completed else in_progress

  verify_completion_cases :
      (t : ResponseTask)
      → find_task k s.tasks ≡ some t
      → let s' = (verify_completion env k b r s).1 in
        let u = record t { status = verdict; updated_at = env.clock s.ticks } in
        (s'.tasks ≡ s.tasks)
        ⊎ ((can_transition t.status verdict ≡ true) × (s'.tasks ≡ put_task u s.tasks))
  unfolding verify_completion ◌>>=◌ get_task task_event
  verify_completion_cases t e = ground arith

  verify_completion_missing :
      find_task k s.tasks ≡ none → (verify_completion env k b r s).1.tasks ≡ s.tasks
  unfolding verify_completion ◌>>=◌ get_task
  verify_completion_missing e = ground arith

  pub verify_completion-Effect : Effect env s (verify_completion env k b r s).1
  verify_completion-Effect =
      Effect-of_task env k s (verify_completion env k b r s).1 verify_completion_missing λ t e.
        Outcome-of_progress env s (verify_completion env k b r s).1 t verdict (env.clock s.ticks)
          (ground arith) (verify_completion_cases t e)
