-- ===== src/Response/Sweep/Complete.antt =====
-- The deadline sweep escalates the overdue tasks, all of them, and no other.
use flood_agent.Base.{
  false, ap, ◌∙◌, Ident, ◌≡◌, inl, inr, refl, arith, true, some, is_some, Time, List, [], ◌∷◌, map,
  filter_by, All, Option-cases,
}
use flood_agent.Response.Enums.{TaskStatus, escalated}
use flood_agent.Response.Transitions.{can_transition}
use flood_agent.Response.Task.{ResponseTask}
use flood_agent.Response.Requests.{TaskActionRequest}
use flood_agent.Response.Records.{DeadlineType}
use flood_agent.Response.Store.{find_event, list_tasks, Env, Store}
use flood_agent.Response.Exec.{ok, ◌>>=◌}
use flood_agent.Response.Records.{ResponseEvent}
use flood_agent.Response.Guards.{edit_roles, is_closed, get_event, save_escalation_of}
use flood_agent.Response.Sweep.{run_deadline_sweep, overdue_in, overdue_type, escalate, sweep_tasks}
use flood_agent.Response.Timeline.{task_event, record_entry}

pub overdue_can :
    (k : TaskStatus) (t : ResponseTask) (moment : Time) (d : DeadlineType)
    → overdue_in k t moment ≡ some d
    → can_transition k escalated ≡ true
unfolding can_transition
overdue_can k t moment d h = ground arith

escalate-returns :
    (env : Env) (r : TaskActionRequest) (t : ResponseTask) (d : DeadlineType) (s : Store)
    → can_transition t.status escalated ≡ true
    → (u : ResponseTask) × ((escalate env r t d s).0 ≡ ok u)
      × (u.task_id ≡ t.task_id)
      × (u.status ≡ escalated)
unfolding escalate ◌>>=◌ save_escalation_of task_event record_entry
escalate-returns env r t d s can =
    (record t { status = escalated; updated_at = env.clock s.ticks }, ground arith, refl, refl)

-- The loop of the deadline sweep never raises: it returns the tasks that are past the deadline of
-- their status, all of them, no other, in their order, and all of them escalated.
sweep_tasks_complete :
    (env : Env) (r : TaskActionRequest) (moment : Time) (ts : List ResponseTask) (s : Store)
    → (us : List ResponseTask) × ((sweep_tasks env r moment ts s).0 ≡ ok us)
      × (map (λ u. u.task_id) us
          ≡ map (λ t. t.task_id) (filter_by (λ t. is_some (overdue_type t moment)) ts))
      × All (λ u. u.status ≡ escalated) us
unfolding sweep_tasks ◌>>=◌
sweep_tasks_complete env r moment [] s = ([], refl, refl, tt)
sweep_tasks_complete env r moment (t ∷ ts) s = elim (Option-cases (overdue_type t moment)) [
  | inl e ↦
      let (us, result, ids, done) = sweep_tasks_complete env r moment ts s in
      (us, ground (arith), ground arith, done)
  | inr (d, e) ↦
      let (u, result, id, status) =
        escalate-returns env r t d s (overdue_can t.status t moment d e) in
      let (us, rest, ids, done) = sweep_tasks_complete env r moment ts (escalate env r t d s).1 in
      (u ∷ us, ground arith, ground arith, (status, done))
]

sweep_runs :
    (env : Env) (k : Ident) (r : TaskActionRequest) (moment : Time) (s : Store) (e : ResponseEvent)
    → edit_roles r.operator_role ≡ true
    → find_event k s.events ≡ some e
    → is_closed e.status ≡ false
    → run_deadline_sweep env k r (some moment) s ≡ sweep_tasks env r moment (list_tasks k s.tasks) s
unfolding run_deadline_sweep ◌>>=◌ get_event
sweep_runs env k r moment s e role found open_event = ground arith

-- In an edit role and on an open event, the deadline sweep of a given moment returns: its result
-- lists the tasks of the event that are past the deadline of their status, all of them, no other,
-- in their order, and all of them escalated.
pub run_deadline_sweep_complete :
    (env : Env) (k : Ident) (r : TaskActionRequest) (moment : Time) (s : Store) (e : ResponseEvent)
    → edit_roles r.operator_role ≡ true
    → find_event k s.events ≡ some e
    → is_closed e.status ≡ false
    → (us : List ResponseTask) × ((run_deadline_sweep env k r (some moment) s).0 ≡ ok us)
      × (map (λ u. u.task_id) us
          ≡ map
              (λ t. t.task_id)
              (filter_by (λ t. is_some (overdue_type t moment)) (list_tasks k s.tasks)))
      × All (λ u. u.status ≡ escalated) us
run_deadline_sweep_complete env k r moment s e role found open_event =
    let (us, result, ids, done) = sweep_tasks_complete env r moment (list_tasks k s.tasks) s in
    (us, ap (λ x. x.0) (sweep_runs env k r moment s e role found open_event) ∙ result, ids, done)
