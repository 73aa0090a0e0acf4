-- ===== src/Response/Ledger/Methods.antt =====
-- Each method of the service keeps a property of the ledger, whether it returns or raises.
use flood_agent.Base.{ℕ, List, Option, none, some, Bool, true, false, Ident, Text}
use flood_agent.Response.Enums.{TaskStatus, OperatorRole}
use flood_agent.Response.Task.{ResponseTask}
use flood_agent.Response.Requests.{
  TaskActionRequest, TaskAssignmentRequest, TaskUpdateRequest, DeadlineExtensionRequest,
  DeadlineExtensionDecisionRequest, TaskCreateRequest,
}
use flood_agent.Response.Records.{
  EscalationReason, ChangeType, CandidateObjectListVersion, RuleEvaluationRecord,
  DeadlineExtensionRecord,
}
use flood_agent.Response.Entry.{Action}
use flood_agent.Response.Store.{Store, Env}
use flood_agent.Response.Exec.Keeps.{Keeps}
use flood_agent.Response.Guards.{transition, save_escalation_of}
use flood_agent.Response.Execution.{acknowledge_task, start_task, assign_task, assign_to}
use flood_agent.Response.Ending.{
  cancel_task, take_over_task, waive_task, waive_open, verify_completion,
}
use flood_agent.Response.Rules.{evaluate_task_rules}
use flood_agent.Response.Drafting.{
  save_task_version_snapshot, revise, update_task, hand_in, submit_draft, submit_task,
}
use flood_agent.Response.Extensions.{
  request_deadline_extension, settle_extension, decide_deadline_extension,
}
use flood_agent.Response.Creation.{
  resolve_in, resolve_after, resolve_candidate_object_list, store_draft, draft_task,
  return_or_draft, create_task,
}
use flood_agent.Response.Ledger.{LedgerLaw, ledger_rules, get_task-Keeps, get_event-Keeps}

module _ (env : Env) (P : Store → Type 0) (law : LedgerLaw env P) where
  transition-Keeps :
      (k : Ident) (r : TaskActionRequest) (from : TaskStatus → Bool) (target : TaskStatus)
      (a : Action)
      → Keeps P (transition env k r from target a)
  unfolding transition
  transition-Keeps k r from target a =
      search (ledger_rules, get_task-Keeps, get_event-Keeps) depth 20

  pub save_escalation_of-Keeps :
      (t : ResponseTask) (p : TaskStatus) (e : EscalationReason) (o : OperatorRole)
      → Keeps P (save_escalation_of env t p e o)
  unfolding save_escalation_of
  save_escalation_of-Keeps t p e o = search ledger_rules depth 20

  pub evaluate_task_rules-Keeps :
      (t : ResponseTask) (r : TaskActionRequest) → Keeps P (evaluate_task_rules env t r)
  unfolding evaluate_task_rules
  evaluate_task_rules-Keeps t r = search ledger_rules depth 20

  pub save_task_version_snapshot-Keeps :
      (t : ResponseTask) (c : ChangeType) (l : List Text) (o d : Ident) (n : Text)
      → Keeps P (save_task_version_snapshot env t c l o d n)
  unfolding save_task_version_snapshot
  save_task_version_snapshot-Keeps t c l o d n = search ledger_rules depth 20

  pub acknowledge_task-Keeps :
      (k : Ident) (r : TaskActionRequest) → Keeps P (acknowledge_task env k r)
  unfolding acknowledge_task
  acknowledge_task-Keeps k r = search (ledger_rules, get_task-Keeps, transition-Keeps) depth 20

  pub start_task-Keeps : (k : Ident) (r : TaskActionRequest) → Keeps P (start_task env k r)
  unfolding start_task
  start_task-Keeps k r = search (ledger_rules, get_task-Keeps, transition-Keeps) depth 20

  pub assign_task-Keeps : (k : Ident) (r : TaskAssignmentRequest) → Keeps P (assign_task env k r)
  unfolding assign_task assign_to
  assign_task-Keeps k r = search (ledger_rules, get_task-Keeps, get_event-Keeps) depth 30

  pub cancel_task-Keeps : (k : Ident) (r : TaskActionRequest) → Keeps P (cancel_task env k r)
  unfolding cancel_task
  cancel_task-Keeps k r = search (ledger_rules, get_task-Keeps) depth 20

  pub take_over_task-Keeps : (k : Ident) (r : TaskActionRequest) → Keeps P (take_over_task env k r)
  unfolding take_over_task
  take_over_task-Keeps k r = search (ledger_rules, get_task-Keeps) depth 20

  pub waive_task-Keeps : (k : Ident) (r : TaskActionRequest) → Keeps P (waive_task env k r)
  unfolding waive_task waive_open
  waive_task-Keeps k r = search (ledger_rules, get_task-Keeps) depth 20

  pub verify_completion-Keeps :
      (k : Ident) (b : Bool) (r : TaskActionRequest) → Keeps P (verify_completion env k b r)
  unfolding verify_completion
  verify_completion-Keeps k b r = search (ledger_rules, get_task-Keeps) depth 24

  pub update_task-Keeps : (k : Ident) (r : TaskUpdateRequest) → Keeps P (update_task env k r)
  unfolding update_task revise
  update_task-Keeps k r =
      search (ledger_rules, get_task-Keeps, get_event-Keeps, save_task_version_snapshot-Keeps) depth
        30

  hand_in-Keeps :
      (t : ResponseTask) (r : TaskActionRequest) (v : RuleEvaluationRecord)
      → Keeps P (hand_in env t r v)
  unfolding hand_in
  hand_in-Keeps t r v = search ledger_rules depth 20

  pub submit_task-Keeps : (k : Ident) (r : TaskActionRequest) → Keeps P (submit_task env k r)
  unfolding submit_task submit_draft
  submit_task-Keeps k r =
      search
        (ledger_rules, get_task-Keeps, get_event-Keeps, evaluate_task_rules-Keeps, hand_in-Keeps)
        depth 30

  pub request_deadline_extension-Keeps :
      (k : Ident) (r : DeadlineExtensionRequest) → Keeps P (request_deadline_extension env k r)
  unfolding request_deadline_extension
  request_deadline_extension-Keeps k r = search (ledger_rules, get_task-Keeps) depth 24

  settle_extension-Keeps :
      (t : ResponseTask) (a : DeadlineExtensionRecord) (r : DeadlineExtensionDecisionRequest)
      (b : Bool)
      → Keeps P (settle_extension env t a r b)
  unfolding settle_extension
  settle_extension-Keeps t a r true = search ledger_rules depth 20
  settle_extension-Keeps t a r false = search ledger_rules depth 20

  pub decide_deadline_extension-Keeps :
      (k : Ident) (r : DeadlineExtensionDecisionRequest)
      → Keeps P (decide_deadline_extension env k r)
  unfolding decide_deadline_extension
  decide_deadline_extension-Keeps k r =
      search (ledger_rules, get_task-Keeps, settle_extension-Keeps) depth 24

  resolve_after-Keeps :
      (k i : Ident) (n : Option ℕ) (l : List CandidateObjectListVersion)
      (o : Option CandidateObjectListVersion)
      → Keeps P (resolve_after env k i n l o)
  unfolding resolve_in
  resolve_after-Keeps k i n l none = search ledger_rules
  resolve_after-Keeps k i n l (some x) = search ledger_rules depth 30

  store_draft-Keeps : (k : Ident) (r : TaskCreateRequest) → Keeps P (store_draft env k r)
  unfolding store_draft
  store_draft-Keeps k r = search (ledger_rules, save_task_version_snapshot-Keeps) depth 20

  return_or_draft-Keeps :
      (k : Ident) (r : TaskCreateRequest) (o : Option ResponseTask)
      → Keeps P (return_or_draft env k r o)
  unfolding draft_task resolve_candidate_object_list
  return_or_draft-Keeps k r none =
      search (ledger_rules, resolve_after-Keeps, store_draft-Keeps) depth 30
  return_or_draft-Keeps k r (some t) = search ledger_rules

  pub create_task-Keeps : (k : Ident) (r : TaskCreateRequest) → Keeps P (create_task env k r)
  unfolding create_task
  create_task-Keeps k r = search (ledger_rules, get_event-Keeps, return_or_draft-Keeps) depth 20
