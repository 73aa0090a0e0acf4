-- ===== src/Response/Service/Changes.antt =====
-- What each call of the service does to the task table.
use flood_agent.Base.{◌≡◌, ◌<◌, inl, inr, refl, arith, none, Ident}
use flood_agent.Response.Enums.{draft}
use flood_agent.Response.Task.{ResponseTask}
use flood_agent.Response.Store.{Env, Store, tsk, find_task, put_task}
use flood_agent.Response.Lifecycle.{Effect, untouched, Effect-Evolves}
use flood_agent.Response.Lifecycle.Ending.{
  cancel_task-Effect, take_over_task-Effect, waive_task-Effect, verify_completion-Effect,
}
use flood_agent.Response.Lifecycle.Execution.{
  acknowledge_task-Effect, start_task-Effect, assign_task-Effect,
}
use flood_agent.Response.Lifecycle.Drafting.{update_task-Effect, submit_task-Effect}
use flood_agent.Response.Lifecycle.Approval.{decide_task-Effect}
use flood_agent.Response.Lifecycle.Feedback.{
  submit_feedback-Effect, request_deadline_extension-Effect, decide_deadline_extension-Effect,
}
use flood_agent.Response.Store.Keys.{DistinctKeys}
use flood_agent.Response.Lifecycle.Sweep.{
  Escalates, Escalates-Evolves, run_deadline_sweep-Escalates,
}
use flood_agent.Response.Lifecycle.Quiet.{
  close_event-Effect, generate_review_draft-Effect, process_outbox-Effect,
  ingest_simulated_dispatch_callback-Effect,
}
use flood_agent.Response.Lifecycle.Revisions.{
  create_event-Effect, freeze-Effect, append_alert-Effect, update_feature_flag-Effect,
  add_risk_objects-Effect, verify_risk_object-Effect,
}
use flood_agent.Response.Requests.{TaskCreateRequest}
use flood_agent.Response.Creation.{drafted_task}
use flood_agent.Response.Lifecycle.Creation.{Created, create_task-Created}
use flood_agent.Response.Service.Growth.{IsFresh, Grows, evolved, added}
use flood_agent.Response.Service.{
  Call, update, submit, decide, acknowledge, start, assign, feedback, verify, ask_extension,
  decide_extension, cancel, take_over, waive, sweep, close, draft_review, process, ingest,
  create_draft, freeze, create, append, add_objects, verify_object, set_flag, serve,
}

-- One step of the life of a stored task or none, a run of escalations, or a new draft.
pub data Change (env : Env) (s s' : Store) : Type 0 where
  one_step : Effect env s s' → Change env s s'
  sweeping : Escalates s.tasks s'.tasks → Change env s s'
  drafting :
      (u : ResponseTask)
      → find_task u.task_id s.tasks ≡ none
      → (u.status ≡ draft) × (u.task_id ≡ env.uuid tsk s.minted) × (s.minted < s'.minted)
      → s'.tasks ≡ put_task u s.tasks
      → Change env s s'

Created-Change :
    (env : Env) (k : Ident) (r : TaskCreateRequest) (s s' : Store)
    → IsFresh env s
    → Created env k r s s'
    → Change env s s'
Created-Change env k r s s' fresh (inl same) = one_step (untouched same)
Created-Change env k r s s' fresh (inr (e, more)) =
    drafting (drafted_task k r (env.uuid tsk s.minted) (env.clock s.ticks))
      (fresh s.minted (omega arith)) (refl, refl, more) e

-- Every call that a client can make is such a change.
pub serve-Change :
    (env : Env) (c : Call) (s : Store)
    → DistinctKeys s.tasks
    → IsFresh env s
    → Change env s (serve env c s)
unfolding serve
serve-Change env (update k r) s keys fresh = one_step (update_task-Effect env k r s)
serve-Change env (submit k r) s keys fresh = one_step (submit_task-Effect env k r s)
serve-Change env (decide k r) s keys fresh = one_step (decide_task-Effect env k r s)
serve-Change env (acknowledge k r) s keys fresh = one_step (acknowledge_task-Effect env k r s)
serve-Change env (start k r) s keys fresh = one_step (start_task-Effect env k r s)
serve-Change env (assign k r) s keys fresh = one_step (assign_task-Effect env k r s)
serve-Change env (feedback k r) s keys fresh = one_step (submit_feedback-Effect env k r s)
serve-Change env (verify k b r) s keys fresh = one_step (verify_completion-Effect env k b r s)
serve-Change env (ask_extension k r) s keys fresh =
    one_step (request_deadline_extension-Effect env k r s)
serve-Change env (decide_extension k r) s keys fresh =
    one_step (decide_deadline_extension-Effect env k r s)
serve-Change env (cancel k r) s keys fresh = one_step (cancel_task-Effect env k r s)
serve-Change env (take_over k r) s keys fresh = one_step (take_over_task-Effect env k r s)
serve-Change env (waive k r) s keys fresh = one_step (waive_task-Effect env k r s)
serve-Change env (sweep k r moment) s keys fresh =
    sweeping (run_deadline_sweep-Escalates env r k moment s keys)
serve-Change env (close k r) s keys fresh = one_step (close_event-Effect env s k r)
serve-Change env (draft_review k r) s keys fresh = one_step (generate_review_draft-Effect env s k r)
serve-Change env (process r) s keys fresh = one_step (process_outbox-Effect env s r)
serve-Change env (ingest r) s keys fresh =
    one_step (ingest_simulated_dispatch_callback-Effect env s r)
serve-Change env (create_draft k r) s keys fresh =
    Created-Change env k r s _ fresh (create_task-Created env k r s)
serve-Change env (freeze k r) s keys fresh = one_step (freeze-Effect env s k r)
serve-Change env (create r) s keys fresh = one_step (create_event-Effect env s r)
serve-Change env (append k r) s keys fresh = one_step (append_alert-Effect env s k r)
serve-Change env (add_objects k r) s keys fresh = one_step (add_risk_objects-Effect env s k r)
serve-Change env (verify_object k i r) s keys fresh =
    one_step (verify_risk_object-Effect env s k i r)
serve-Change env (set_flag r) s keys fresh = one_step (update_feature_flag-Effect env s r)

Change-Grows : (env : Env) (s s' : Store) → Change env s s' → Grows env s s'
Change-Grows env s s' (one_step e) = evolved (Effect-Evolves env s s' e)
Change-Grows env s s' (sweeping e) = evolved (Escalates-Evolves env s.tasks s'.tasks e)
Change-Grows env s s' (drafting u new facts e) = added u new facts e

-- Every call is a number of steps of the lives of stored tasks, or a new draft.
pub serve-Grows :
    (env : Env) (c : Call) (s : Store)
    → DistinctKeys s.tasks
    → IsFresh env s
    → Grows env s (serve env c s)
serve-Grows env c s keys fresh =
    Change-Grows env s (serve env c s) (serve-Change env c s keys fresh)
