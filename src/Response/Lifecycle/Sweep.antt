-- ===== src/Response/Lifecycle/Sweep.antt =====
-- The deadline sweep is a number of steps of the lives of the overdue tasks.
use mathlib.Core.Path.{subst, sym}
use flood_agent.Base.{
  ◌≡◌, refl, arith, true, some, none, Option, List, [], ◌∷◌, Ident, Time, Option-cases, inl, inr,
}
use flood_agent.Response.Enums.{escalated}
use flood_agent.Response.Transitions.{can_transition}
use flood_agent.Response.Task.{ResponseTask}
use flood_agent.Response.Requests.{TaskActionRequest}
use flood_agent.Response.Records.{DeadlineType}
use flood_agent.Response.Store.{Env, Store, find_task, put_task, list_tasks}
use flood_agent.Response.Store.Keys.{
  DistinctKeys, AllStored, list_tasks-DistinctKeys, list_tasks-AllStored, put_task-AllStored,
}
use flood_agent.Response.Exec.{ok, gets, ◌>>=◌}
use flood_agent.Response.Exec.Keeps.{Keeps, Keeps-pure}
use flood_agent.Response.Exec.Leads.{Leads, Leads-then, Leads-known, Leads-require}
use flood_agent.Response.Guards.{save_escalation_of}
use flood_agent.Response.Sweep.{
  escalate, overdue_type, sweep_tasks, chosen_moment, run_deadline_sweep,
}
use flood_agent.Response.Sweep.Complete.{overdue_can}
use flood_agent.Response.Timeline.{task_event}
use flood_agent.Response.Lifecycle.Tables.{OnTasks, clock_only, event_lookup_only}
use flood_agent.Response.Lifecycle.{progress_step, Evolves, still, stepped}

-- The tasks of a table are escalated, one after another, by allowed transitions.
pub data Escalates (l : List ResponseTask) : List ResponseTask → Type 0 where
  unswept : Escalates l l
  swept :
      {m n : List ResponseTask}
      → Escalates l m
      → (t : ResponseTask) (moment : Time) → find_task t.task_id m ≡ some t
      → can_transition t.status escalated ≡ true
      → n ≡ put_task (record t { status = escalated; updated_at = moment }) m
      → Escalates l n

pub Escalates-Evolves : (env : Env) (l m : List ResponseTask) → Escalates l m → Evolves env l m
Escalates-Evolves env l m unswept = still
Escalates-Evolves env l n (swept {m = m} so_far t moment found can e) =
    stepped (Escalates-Evolves env l m so_far) t _ found
      (progress_step env t escalated moment can refl) e

module _ (env : Env) (r : TaskActionRequest) where
  abbrev escalated_task : ResponseTask → Store → ResponseTask
  escalated_task t s = record t { status = escalated; updated_at = env.clock s.ticks }

  escalate_writes :
      (t : ResponseTask) (d : DeadlineType) (s : Store)
      → can_transition t.status escalated ≡ true
      → ((escalate env r t d s).0 ≡ ok (escalated_task t s))
        × ((escalate env r t d s).1.tasks ≡ put_task (escalated_task t s) s.tasks)
  unfolding escalate ◌>>=◌ save_escalation_of task_event
  escalate_writes t d s can = (ground arith, ground arith)

  sweep_passes :
      (moment : Time) (t : ResponseTask) (ts : List ResponseTask) (s : Store)
      → overdue_type t moment ≡ none
      → (sweep_tasks env r moment (t ∷ ts) s).1.tasks ≡ (sweep_tasks env r moment ts s).1.tasks
  unfolding sweep_tasks ◌>>=◌
  sweep_passes moment t ts s e = ground arith

  sweep_escalates :
      (moment : Time) (t : ResponseTask) (ts : List ResponseTask) (d : DeadlineType) (s : Store)
      → overdue_type t moment ≡ some d
      → (sweep_tasks env r moment (t ∷ ts) s).1.tasks
        ≡ (sweep_tasks env r moment ts (escalate env r t d s).1).1.tasks
  unfolding sweep_tasks ◌>>=◌
  sweep_escalates moment t ts d s e =
      ground (arith, (escalate_writes t d s (overdue_can t.status t moment d e)).0)

  sweep_tasks-Escalates :
      (moment : Time) (l ts : List ResponseTask) (s : Store)
      → Escalates l s.tasks
      → AllStored s.tasks ts
      → DistinctKeys ts
      → Escalates l (sweep_tasks env r moment ts s).1.tasks
  unfolding sweep_tasks ◌>>=◌
  sweep_tasks-Escalates moment l [] s so_far stored keys = so_far
  sweep_tasks-Escalates moment l (t ∷ ts) s so_far stored keys =
      elim (Option-cases (overdue_type t moment)) [
        | inl e ↦
            subst (Escalates l) (sym (sweep_passes moment t ts s e))
              (sweep_tasks-Escalates moment l ts s so_far stored.1 keys.1)
        | inr (d, e) ↦
            let u = escalated_task t s in
            let can = overdue_can t.status t moment d e in
            let (result, write) = escalate_writes t d s can in
            subst (Escalates l) (sym (sweep_escalates moment t ts d s e)) (
              sweep_tasks-Escalates moment l ts (escalate env r t d s).1
                (swept so_far t (env.clock s.ticks) stored.0 can write)
                (subst (λ m. AllStored m ts) (sym write)
                  (put_task-AllStored u s.tasks ts keys.0 stored.1))
                keys.1)
      ]

  moment_only :
      (P : List ResponseTask → Type 0) (o : Option Time) → Keeps (OnTasks P) (chosen_moment env o)
  moment_only P none = clock_only env P
  moment_only P (some m) = Keeps-pure m

  list_known :
      (k : Ident) (l : List ResponseTask) (s : Store)
      → s.tasks ≡ l
      → gets (λ x. list_tasks k x.tasks) s ≡ (ok (list_tasks k l), s)
  unfolding gets
  list_known k l s h = rw h refl

  pub run_deadline_sweep-Escalates :
      (k : Ident) (o : Option Time) (s : Store)
      → DistinctKeys s.tasks
      → Escalates s.tasks (run_deadline_sweep env k r o s).1.tasks
  unfolding run_deadline_sweep
  run_deadline_sweep-Escalates k o s keys = run.at s refl
    where
      l : List ResponseTask
      l = s.tasks

      weaker : (x : Store) → x.tasks ≡ l → Escalates l x.tasks
      weaker x h = subst (Escalates l) (sym h) unswept

      run : Leads (λ x. x.tasks ≡ l) (run_deadline_sweep env k r o) (λ x. Escalates l x.tasks)
      run = Leads-require _ _ _ weaker λ role.
          Leads-then _ _ weaker (event_lookup_only env (λ m. m ≡ l) k true) λ event.
            Leads-then _ _ weaker (moment_only (λ m. m ≡ l) o) λ moment.
              Leads-known _ _ (list_tasks k l) (list_known k l) (record {
                at = λ x h.
                    sweep_tasks-Escalates moment l (list_tasks k l) x (weaker x h)
                      (subst (λ m. AllStored m (list_tasks k l)) (sym h)
                        (list_tasks-AllStored k l keys))
                      (list_tasks-DistinctKeys k l keys);
              })
