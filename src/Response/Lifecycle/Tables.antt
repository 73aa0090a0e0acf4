-- ===== src/Response/Lifecycle/Tables.antt =====
-- What the calls that do not write a task leave alone: any condition on the task table.
use flood_agent.Base.{inl, inr, Bool, Option, some, none, List, Ident, Text, Option-cases}
use flood_agent.Response.Enums.{TaskStatus}
use flood_agent.Response.Task.{ResponseTask}
use flood_agent.Response.Requests.{TaskActionRequest}
use flood_agent.Response.Records.{
  ApprovalRecord, OutboxMessage, Scenario, ChangeType, DispatchCallbackRecord, RuleEvaluationRecord,
}
use flood_agent.Response.Entry.{Action, Detail}
use flood_agent.Response.Store.{Env, Store, IdPrefix, find_callback}
use flood_agent.Response.Exec.{now, new_id, save_message, save_callback, save_evaluation, ◌>>=◌}
use flood_agent.Response.Exec.Keeps.{Keeps, keeps_rules}
use flood_agent.Response.Guards.{get_task, get_event}
use flood_agent.Response.Rules.{evaluate_task_rules}
use flood_agent.Response.Drafting.{save_task_version_snapshot}
use flood_agent.Response.Dispatch.{dispatch_outbox_message}
use flood_agent.Response.Dispatch.Keeps.{dispatch_outbox_message-Keeps}
use flood_agent.Response.Approval.{
  message_or_new, new_message, build_dispatch_outbox, dispatch_if_enabled,
}
use flood_agent.Response.Timeline.{EntryArgs, record_entry, task_event}

-- What the task table satisfies, whatever the rest of the store is.
abbrev pub OnTasks : (List ResponseTask → Type 0) → Store → Type 0
OnTasks P s = P s.tasks

module _ (env : Env) (P : List ResponseTask → Type 0) where
  pub clock_only : Keeps (OnTasks P) (now env)
  unfolding now
  clock_only = record { at = λ s h. h }

  pub uuid_only : (p : IdPrefix) → Keeps (OnTasks P) (new_id env p)
  unfolding new_id
  uuid_only p = record { at = λ s h. h }

  pub message_only : (m : OutboxMessage) → Keeps (OnTasks P) (save_message m)
  unfolding save_message
  message_only m = record { at = λ s h. h }

  pub evaluation_only : (r : RuleEvaluationRecord) → Keeps (OnTasks P) (save_evaluation r)
  unfolding save_evaluation
  evaluation_only r = record { at = λ s h. h }

  pub callback_only : (c : DispatchCallbackRecord) → Keeps (OnTasks P) (save_callback c)
  unfolding save_callback
  callback_only c = record {
    at = λ s h. elim (Option-cases (find_callback c.idempotency_key s.callbacks)) [
      | inl e ↦ rw (e, save_callback) h
      | inr (old, e) ↦ rw (e, save_callback) h
    ];
  }

  pub entry_only : (a : EntryArgs) → Keeps (OnTasks P) (record_entry env a)
  unfolding record_entry
  entry_only a = record { at = λ s h. h }

  pub event_only :
      (t : ResponseTask) (a : Action) (r : TaskActionRequest) (p : Option TaskStatus) (d : Detail)
      → Keeps (OnTasks P) (task_event env t a r p d)
  unfolding task_event record_entry
  event_only t a r p d = record { at = λ s h. h }

  pub snapshot_only :
      (t : ResponseTask) (c : ChangeType) (l : List Text) (o d : Ident) (n : Text)
      → Keeps (OnTasks P) (save_task_version_snapshot env t c l o d n)
  unfolding save_task_version_snapshot ◌>>=◌
  snapshot_only t c l o d n = record { at = λ s h. h }

  pub rules_only :
      (t : ResponseTask) (r : TaskActionRequest) → Keeps (OnTasks P) (evaluate_task_rules env t r)
  unfolding evaluate_task_rules ◌>>=◌ task_event record_entry
  rules_only t r = record { at = λ s h. h }

  pub lookup_only : (k : Ident) → Keeps (OnTasks P) (get_task k)
  unfolding get_task
  lookup_only k = search keeps_rules depth 12

  pub event_lookup_only : (k : Ident) (b : Bool) → Keeps (OnTasks P) (get_event k b)
  unfolding get_event
  event_lookup_only k b = search keeps_rules depth 12

  pub dispatch_only :
      (m : OutboxMessage) (sc : Scenario) → Keeps (OnTasks P) (dispatch_outbox_message env m sc)
  dispatch_only =
      dispatch_outbox_message-Keeps env (OnTasks P) clock_only uuid_only message_only callback_only
        entry_only lookup_only

  pub enabled_only :
      (t : ResponseTask) (m : OutboxMessage) → Keeps (OnTasks P) (dispatch_if_enabled env t m)
  unfolding dispatch_if_enabled
  enabled_only t m = search (keeps_rules, dispatch_only) depth 20

  pub build_only :
      (t : ResponseTask) (a : ApprovalRecord) (o : Option OutboxMessage)
      → Keeps (OnTasks P) (message_or_new env t a o)
  unfolding new_message
  build_only t a none = search (keeps_rules, clock_only, uuid_only) depth 20
  build_only t a (some m) = search keeps_rules

  pub built_only :
      (t : ResponseTask) (a : ApprovalRecord) → Keeps (OnTasks P) (build_dispatch_outbox env t a)
  unfolding build_dispatch_outbox
  built_only t a = search (keeps_rules, build_only) depth 12
