-- ===== src/Response/Lifecycle/Drafting.antt =====
-- Editing and submitting a draft are steps of the life of a task.
use flood_agent.Response.Exec.{◌>>=◌}
use flood_agent.Response.Guards.{get_event, get_task}
use flood_agent.Response.Drafting.{save_task_version_snapshot}
use flood_agent.Base.{◌≡◌, ◌⊎◌, inl, inr, refl, some, none, arith, Ident, map, filter_by}
use flood_agent.Response.Enums.{draft, pending_approval}
use flood_agent.Response.Task.{ResponseTask}
use flood_agent.Response.Requests.{TaskActionRequest, TaskUpdateRequest}
use flood_agent.Response.Store.{Env, Store, find_task, put_task}
use flood_agent.Response.Rules.{
  evaluate_task_rules, evaluate_task_rules_lem, evaluation_of, is_soft_warning,
}
use flood_agent.Response.Records.{RuleEvaluationRecord}
use flood_agent.Response.Drafting.{
  update_task, submit_task, submit_draft, revised_task, revise, hand_in, warning_of,
}
use flood_agent.Response.Drafting.{is_draft_lem}
use flood_agent.Response.Timeline.{task_event, record_entry}
use flood_agent.Response.Lifecycle.{Effect, Effect-of_task, edited, submitted}

module _ (env : Env) (k : Ident) (r : TaskUpdateRequest) (s : Store) where
  revise_write :
      (t : ResponseTask)
      → (revise env t r s).1.tasks ≡ put_task (revised_task t r (env.clock s.ticks)) s.tasks
  unfolding revise ◌>>=◌ save_task_version_snapshot record_entry
  revise_write t = refl

  update_task_cases :
      (t : ResponseTask)
      → find_task k s.tasks ≡ some t
      → let s' = (update_task env k r s).1 in
        (s'.tasks ≡ s.tasks)
        ⊎ ((t.status ≡ draft)
            × (s'.tasks ≡ put_task (revised_task t r (env.clock s.ticks)) s.tasks))
  unfolding update_task ◌>>=◌ get_event get_task
  update_task_cases t e = ground (arith, revise_write t, is_draft_lem t.status)

  update_task_missing : find_task k s.tasks ≡ none → (update_task env k r s).1.tasks ≡ s.tasks
  unfolding update_task ◌>>=◌ get_event get_task
  update_task_missing e = ground arith

  pub update_task-Effect : Effect env s (update_task env k r s).1
  update_task-Effect = Effect-of_task env k s (update_task env k r s).1 update_task_missing λ t e.
      elim (update_task_cases t e) [
        | inl same ↦ inl same
        | inr (was, write) ↦ inr (
          revised_task t r (env.clock s.ticks),
          edited (record { task_id = refl; event_id = refl; object_id = refl })
              (was, was, omega arith, refl, refl),
          write,
        )
      ]

-- The draft as `submit_task` saves it.
abbrev handed_in : Env → ResponseTask → RuleEvaluationRecord → Store → ResponseTask
handed_in env t evaluation s = record t {
  status = pending_approval;
  last_rule_evaluation_id = some evaluation.evaluation_id;
  validation_warnings = map (λ c. warning_of) (filter_by is_soft_warning evaluation.checks);
  updated_at = env.clock s.ticks;
}

hand_in_cases :
    (env : Env) (r : TaskActionRequest) (t : ResponseTask) (v : RuleEvaluationRecord) (s : Store)
    → let s' = (hand_in env t r v s).1 in
      (s'.tasks ≡ s.tasks) ⊎ (s'.tasks ≡ put_task (handed_in env t v s) s.tasks)
unfolding hand_in ◌>>=◌ task_event
hand_in_cases env r t v s = ground arith

module _ (env : Env) (k : Ident) (r : TaskActionRequest) (s : Store) where
  submit_task_cases :
      (t : ResponseTask)
      → find_task k s.tasks ≡ some t
      → let s' = (submit_task env k r s).1 in
        let after = (evaluate_task_rules env t r s).1 in
        (s'.tasks ≡ s.tasks)
        ⊎ ((t.status ≡ draft)
            × (s'.tasks ≡ put_task (handed_in env t (evaluation_of env t r s) after) s.tasks))
  unfolding submit_task submit_draft ◌>>=◌ get_event get_task
  submit_task_cases t e = ground (
    arith,
    (evaluate_task_rules_lem env t r s).0,
    (evaluate_task_rules_lem env t r s).1,
    is_draft_lem t.status,
    hand_in_cases env r t (evaluation_of env t r s) (evaluate_task_rules env t r s).1,
  )

  submit_task_missing : find_task k s.tasks ≡ none → (submit_task env k r s).1.tasks ≡ s.tasks
  unfolding submit_task submit_draft ◌>>=◌ get_event get_task
  submit_task_missing e = ground arith

  pub submit_task-Effect : Effect env s (submit_task env k r s).1
  submit_task-Effect = Effect-of_task env k s (submit_task env k r s).1 submit_task_missing λ t e.
      elim (submit_task_cases t e) [
        | inl same ↦ inl same
        | inr (was, write) ↦ inr (
          handed_in env t (evaluation_of env t r s) (evaluate_task_rules env t r s).1,
          submitted (record { task_id = refl; event_id = refl; object_id = refl }) (was, refl)
              (refl, refl, refl),
          write,
        )
      ]
