-- ===== src/Response/Ledger/Closing.antt =====
-- Feedback, the decision on a task, the outbox, the deadline sweep and the closing of an event keep
-- a property of the ledger, whether they return or raise.
use flood_agent.Base.{
  ℕ, arith, zero, suc, refl, ◌||◌, inl, inr, none, some, is_some, Option, List, [], ◌∷◌, Ident,
  Time, Text, Bool-cases, Option-cases,
}
use flood_agent.Response.Enums.{
  FeedbackCategory, completion, partial_completion, resource_shortage, coordination_request,
  situation_update,
}
use flood_agent.Response.Task.{ResponseTask}
use flood_agent.Response.Requests.{TaskActionRequest, FeedbackRequest, ApprovalRequest}
use flood_agent.Response.Records.{
  ResponseEvent, TaskFeedback, ApprovalRecord, OutboxMessage, CallbackPayload, Scenario,
  DeadlineType,
}
use flood_agent.Response.Entry.{Action}
use flood_agent.Response.Store.{Store, Env, find_message, find_message_key}
use flood_agent.Response.Exec.Keeps.{Keeps, Keeps-bind, Keeps-pure}
use flood_agent.Response.Feedback.{
  finish_feedback, apply_feedback, store_feedback, accept_feedback, merge_duplicate, take_feedback,
  submit_feedback,
}
use flood_agent.Response.Approval.{
  new_message, message_or_new, build_dispatch_outbox, commit_with_message, commit_decision,
  dispatch_if_enabled, approve, send_back, decide_task,
}
use flood_agent.Response.Dispatch.{Actor, dispatch_outbox_message, record_dispatch_callback}
use flood_agent.Response.Dispatch.Keeps.{
  dispatch_outbox_message-Keeps, record_dispatch_callback-Keeps,
}
use flood_agent.Response.Outbox.{
  dispatch_all, OutboxProcessRequest, asked_messages, process_outbox, DispatchCallbackRequest,
  ingest_simulated_dispatch_callback,
}
use flood_agent.Response.Review.{generate_review_draft}
use flood_agent.Response.Sweep.{
  escalate, sweep_tasks, overdue_type, chosen_moment, run_deadline_sweep, finish_closing,
  close_event,
}
use flood_agent.Response.Ledger.{
  LedgerLaw, ledger_rules, get_task-Keeps, get_event-Keeps, same_ledger, now-Keeps, new_id-Keeps,
  save_message-Keeps, save_callback-Keeps, record_entry-Keeps,
}
use flood_agent.Response.Ledger.Methods.{
  save_escalation_of-Keeps, evaluate_task_rules-Keeps, save_task_version_snapshot-Keeps,
}

module _ (env : Env) (P : Store → Type 0) (law : LedgerLaw env P) where
  finish_feedback-Keeps :
      (t u : ResponseTask) (r : FeedbackRequest) (c : FeedbackCategory) (i : Ident) (a : Action)
      (e : Option Ident)
      → Keeps P (finish_feedback env t u r c i a e)
  unfolding finish_feedback
  finish_feedback-Keeps t u r c i a e = search ledger_rules depth 20

  apply_feedback-Keeps :
      (t : ResponseTask) (r : FeedbackRequest) (i : Ident) (c : FeedbackCategory) (o : Option Text)
      → Keeps P (apply_feedback env t r i c o)
  unfolding apply_feedback
  apply_feedback-Keeps t r i c (some reason) =
      search (ledger_rules, finish_feedback-Keeps, save_escalation_of-Keeps) depth 20
  apply_feedback-Keeps t r i completion none = search (ledger_rules, finish_feedback-Keeps) depth 20
  apply_feedback-Keeps t r i partial_completion none =
      search (ledger_rules, finish_feedback-Keeps) depth 20
  apply_feedback-Keeps t r i FeedbackCategory.blocked none = search (finish_feedback-Keeps)
  apply_feedback-Keeps t r i resource_shortage none = search (finish_feedback-Keeps)
  apply_feedback-Keeps t r i coordination_request none = search (finish_feedback-Keeps)
  apply_feedback-Keeps t r i situation_update none = search (finish_feedback-Keeps)

  store_feedback-Keeps :
      (t : ResponseTask) (r : FeedbackRequest) (c : FeedbackCategory) (key : Ident)
      → Keeps P (store_feedback env t r c key)
  unfolding store_feedback
  store_feedback-Keeps t r c key = search (ledger_rules, apply_feedback-Keeps) depth 20

  take_feedback-Keeps :
      (t : ResponseTask) (r : FeedbackRequest) (key : Ident) (o : Option TaskFeedback)
      → Keeps P (take_feedback env t r key o)
  unfolding take_feedback merge_duplicate accept_feedback
  take_feedback-Keeps t r key none = search (ledger_rules, store_feedback-Keeps) depth 20
  take_feedback-Keeps t r key (some f) = search ledger_rules depth 20

  pub submit_feedback-Keeps : (k : Ident) (r : FeedbackRequest) → Keeps P (submit_feedback env k r)
  unfolding submit_feedback
  submit_feedback-Keeps k r =
      search (ledger_rules, get_task-Keeps, get_event-Keeps, take_feedback-Keeps) depth 24

  dispatch-Keeps : (m : OutboxMessage) (sc : Scenario) → Keeps P (dispatch_outbox_message env m sc)
  dispatch-Keeps =
      dispatch_outbox_message-Keeps env P (now-Keeps env P law) (new_id-Keeps env P law)
        (save_message-Keeps env P law) (save_callback-Keeps env P law)
        (record_entry-Keeps env P law) (get_task-Keeps env P law)

  callback-Keeps :
      (m : OutboxMessage) (p : CallbackPayload) (a : Actor)
      → Keeps P (record_dispatch_callback env m p a)
  callback-Keeps =
      record_dispatch_callback-Keeps env P (now-Keeps env P law) (new_id-Keeps env P law)
        (save_message-Keeps env P law) (save_callback-Keeps env P law)
        (record_entry-Keeps env P law) (get_task-Keeps env P law)

  commit_with_message-Keeps :
      (a : ApprovalRecord) (t : ResponseTask) (m : OutboxMessage)
      → Keeps P (commit_with_message a t m)
  unfolding commit_with_message
  commit_with_message-Keeps a t m = record {
    at = λ s h.
        elim (Bool-cases (
          is_some (find_message m.message_id s.outbox_messages)
          || is_some (find_message_key m.idempotency_key s.outbox_messages))) [
            | inl e ↦ rw e h
            | inr e ↦ rw e (same_ledger env P law s _ refl refl refl (omega arith) h)
          ];
  }

  commit_decision-Keeps : (a : ApprovalRecord) (t : ResponseTask) → Keeps P (commit_decision a t)
  unfolding commit_decision
  commit_decision-Keeps a t = record {
    at = λ s h. same_ledger env P law s _ refl refl refl (omega arith) h;
  }

  build-Keeps :
      (t : ResponseTask) (a : ApprovalRecord) (o : Option OutboxMessage)
      → Keeps P (message_or_new env t a o)
  unfolding new_message
  build-Keeps t a none = search ledger_rules depth 20
  build-Keeps t a (some m) = search ledger_rules

  approve-Keeps :
      (t : ResponseTask) (r : ApprovalRequest) (a : ApprovalRecord) → Keeps P (approve env t r a)
  unfolding approve build_dispatch_outbox dispatch_if_enabled
  approve-Keeps t r a =
      search (ledger_rules, build-Keeps, commit_with_message-Keeps, dispatch-Keeps) depth 30

  send_back-Keeps :
      (t : ResponseTask) (r : ApprovalRequest) (a : ApprovalRecord) → Keeps P (send_back env t r a)
  unfolding send_back
  send_back-Keeps t r a =
      search (ledger_rules, commit_decision-Keeps, save_task_version_snapshot-Keeps) depth 30

  pub decide_task-Keeps : (k : Ident) (r : ApprovalRequest) → Keeps P (decide_task env k r)
  unfolding decide_task
  decide_task-Keeps k r =
      search
        (
          ledger_rules, get_task-Keeps, get_event-Keeps, evaluate_task_rules-Keeps, approve-Keeps,
          send_back-Keeps,
        )
        depth 40

  escalate-Keeps :
      (r : TaskActionRequest) (t : ResponseTask) (d : DeadlineType) → Keeps P (escalate env r t d)
  unfolding escalate
  escalate-Keeps r t d = search (ledger_rules, save_escalation_of-Keeps) depth 20

  sweep_tasks-Keeps :
      (r : TaskActionRequest) (moment : Time) (ts : List ResponseTask)
      → Keeps P (sweep_tasks env r moment ts)
  unfolding sweep_tasks
  sweep_tasks-Keeps r moment [] = Keeps-pure _
  sweep_tasks-Keeps r moment (t ∷ ts) = elim (Option-cases (overdue_type t moment)) [
    | inl e ↦ rw (e, sweep_tasks) (sweep_tasks-Keeps r moment ts)
    | inr (d, e) ↦
        rw (e, sweep_tasks)
          (Keeps-bind _ _ (escalate-Keeps r t d)
            λ u. Keeps-bind _ _ (sweep_tasks-Keeps r moment ts) λ us. Keeps-pure _)
  ]

  moment-Keeps : (o : Option Time) → Keeps P (chosen_moment env o)
  moment-Keeps none = now-Keeps env P law
  moment-Keeps (some m) = Keeps-pure m

  pub run_deadline_sweep-Keeps :
      (k : Ident) (r : TaskActionRequest) (o : Option Time) → Keeps P (run_deadline_sweep env k r o)
  unfolding run_deadline_sweep
  run_deadline_sweep-Keeps k r o =
      search (ledger_rules, get_event-Keeps, moment-Keeps, sweep_tasks-Keeps) depth 20

  pub generate_review_draft-Keeps :
      (k : Ident) (r : TaskActionRequest) → Keeps P (generate_review_draft env k r)
  unfolding generate_review_draft
  generate_review_draft-Keeps k r = search (ledger_rules, get_event-Keeps) depth 30

  finish_closing-Keeps :
      (k : Ident) (r : TaskActionRequest) (e : ResponseEvent) (n : ℕ)
      → Keeps P (finish_closing env k r e n)
  unfolding finish_closing
  finish_closing-Keeps k r e n = search (ledger_rules, generate_review_draft-Keeps) depth 30

  pub close_event-Keeps : (k : Ident) (r : TaskActionRequest) → Keeps P (close_event env k r)
  unfolding close_event
  close_event-Keeps k r = search (ledger_rules, get_event-Keeps, finish_closing-Keeps) depth 30

  dispatch_all-Keeps : (sc : Scenario) (ms : List OutboxMessage) → Keeps P (dispatch_all env sc ms)
  unfolding dispatch_all
  dispatch_all-Keeps sc [] = Keeps-pure _
  dispatch_all-Keeps sc (m ∷ ms) =
      Keeps-bind _ _ (dispatch-Keeps m sc)
        λ x. Keeps-bind _ _ (dispatch_all-Keeps sc ms) λ xs. Keeps-pure _

  asked-Keeps : (r : OutboxProcessRequest) (o : Option Ident) → Keeps P (asked_messages r o)
  unfolding asked_messages
  asked-Keeps r none = search ledger_rules
  asked-Keeps r (some zero) = search ledger_rules
  asked-Keeps r (some (suc k)) = search ledger_rules depth 12

  pub process_outbox-Keeps : (r : OutboxProcessRequest) → Keeps P (process_outbox env r)
  unfolding process_outbox
  process_outbox-Keeps r = search (ledger_rules, asked-Keeps, dispatch_all-Keeps) depth 12

  pub ingest_simulated_dispatch_callback-Keeps :
      (r : DispatchCallbackRequest) → Keeps P (ingest_simulated_dispatch_callback env r)
  unfolding ingest_simulated_dispatch_callback
  ingest_simulated_dispatch_callback-Keeps r = search (ledger_rules, callback-Keeps) depth 30
