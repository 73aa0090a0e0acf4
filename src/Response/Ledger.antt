-- ===== src/Response/Ledger.antt =====
-- The rules by which each call of a service method keeps a property of the ledger: they follow
-- the statements of its body.
pub mod Methods
pub mod Closing
pub mod Revisions
use flood_agent.Base.{
  ◌+◌, ◌≤◌, ◌≡◌, refl, arith, Ident, Bool, true, false, some, none, Option, Option-cases, inl, inr,
  Text, ℕ,
}
use flood_agent.Response.Enums.{TaskStatus, OperatorRole}
use flood_agent.Response.Task.{ResponseTask}
use flood_agent.Response.Requests.{TaskActionRequest}
use flood_agent.Response.Records.{
  ResponseEvent, RuleEvaluationRecord, TaskVersionSnapshot, TaskAssignmentRecord, ApprovalRecord,
  ChangeType, DeadlineExtensionRecord, TaskFeedback, EscalationRecord, EscalationReason,
  OutboxMessage, DispatchCallbackRecord, AlertSnapshot, RiskObjectVersionSnapshot,
  CandidateObjectListVersion, FeatureFlagSetting, EventReviewDraft,
}
use flood_agent.Response.Entry.{Action, Detail}
use flood_agent.Response.Store.{Env, Store, IdPrefix, find_callback}
use flood_agent.Response.Exec.{
  now, new_id, save_task, save_event, save_extension, save_feedback, save_escalation,
  save_assignment, save_evaluation, save_snapshot, save_message, save_callback, save_alert,
  save_object_version, save_flag, save_list, save_review, ◌>>=◌,
}
use flood_agent.Response.Exec.Keeps.{Keeps, keeps_rules}
use flood_agent.Response.Guards.{get_event, get_task, transition, save_escalation_of}
use flood_agent.Response.Drafting.{save_task_version_snapshot}
use flood_agent.Response.Rules.{evaluate_task_rules}
use flood_agent.Response.Timeline.{EntryArgs, record_entry, task_event}

-- What a property of the store has to satisfy for the methods to keep it: it speaks of the ledger,
-- the risk objects, the clock and `uuid4` alone, it allows these two to be read, and an entry can be
-- recorded.
-- A method that writes risk objects needs that these writes keep it too.
pub record LedgerLaw (env : Env) (P : Store → Type 0) : Type 0 where
  pub waits :
      (s t : Store)
      → t.timeline ≡ s.timeline
      → t.objects ≡ s.objects
      → s.ticks ≤ t.ticks
      → s.minted ≤ t.minted
      → P s
      → P t
  pub records : (a : EntryArgs) (s : Store) → P s → P (record_entry env a s).1

module _ (env : Env) (P : Store → Type 0) (law : LedgerLaw env P) where
  pub same_ledger :
      (s t : Store)
      → t.timeline ≡ s.timeline
      → t.objects ≡ s.objects
      → t.ticks ≡ s.ticks
      → s.minted ≤ t.minted
      → P s
      → P t
  same_ledger s t e o k m h = law.waits s t e o (omega arith) m h

  pub now-Keeps : Keeps P (now env)
  unfolding now
  now-Keeps = record { at = λ s h. law.waits s _ refl refl (omega arith) (omega arith) h }

  pub new_id-Keeps : (p : IdPrefix) → Keeps P (new_id env p)
  unfolding new_id
  new_id-Keeps p = record { at = λ s h. same_ledger s _ refl refl refl (omega arith) h }

  pub save_task-Keeps : (t : ResponseTask) → Keeps P (save_task t)
  unfolding save_task
  save_task-Keeps t = record { at = λ s h. same_ledger s _ refl refl refl (omega arith) h }

  pub save_event-Keeps : (e : ResponseEvent) → Keeps P (save_event e)
  unfolding save_event
  save_event-Keeps e = record { at = λ s h. same_ledger s _ refl refl refl (omega arith) h }

  pub save_extension-Keeps : (e : DeadlineExtensionRecord) → Keeps P (save_extension e)
  unfolding save_extension
  save_extension-Keeps e = record { at = λ s h. same_ledger s _ refl refl refl (omega arith) h }

  pub save_feedback-Keeps : (f : TaskFeedback) → Keeps P (save_feedback f)
  unfolding save_feedback
  save_feedback-Keeps f = record { at = λ s h. same_ledger s _ refl refl refl (omega arith) h }

  pub save_escalation-Keeps : (e : EscalationRecord) → Keeps P (save_escalation e)
  unfolding save_escalation
  save_escalation-Keeps e = record { at = λ s h. same_ledger s _ refl refl refl (omega arith) h }

  pub save_assignment-Keeps : (a : TaskAssignmentRecord) → Keeps P (save_assignment a)
  unfolding save_assignment
  save_assignment-Keeps a = record { at = λ s h. same_ledger s _ refl refl refl (omega arith) h }

  pub save_evaluation-Keeps : (r : RuleEvaluationRecord) → Keeps P (save_evaluation r)
  unfolding save_evaluation
  save_evaluation-Keeps r = record { at = λ s h. same_ledger s _ refl refl refl (omega arith) h }

  pub save_snapshot-Keeps : (v : TaskVersionSnapshot) → Keeps P (save_snapshot v)
  unfolding save_snapshot
  save_snapshot-Keeps v = record { at = λ s h. same_ledger s _ refl refl refl (omega arith) h }

  pub save_message-Keeps : (m : OutboxMessage) → Keeps P (save_message m)
  unfolding save_message
  save_message-Keeps m = record { at = λ s h. same_ledger s _ refl refl refl (omega arith) h }

  pub save_callback-Keeps : (c : DispatchCallbackRecord) → Keeps P (save_callback c)
  unfolding save_callback
  save_callback-Keeps c = record {
    at = λ s h. elim (Option-cases (find_callback c.idempotency_key s.callbacks)) [
      | inl e ↦ rw (e, save_callback) (same_ledger s _ refl refl refl (omega arith) h)
      | inr (old, e) ↦ rw (e, save_callback) h
    ];
  }

  pub save_alert-Keeps : (a : AlertSnapshot) → Keeps P (save_alert a)
  unfolding save_alert
  save_alert-Keeps a = record { at = λ s h. same_ledger s _ refl refl refl (omega arith) h }

  pub save_object_version-Keeps : (v : RiskObjectVersionSnapshot) → Keeps P (save_object_version v)
  unfolding save_object_version
  save_object_version-Keeps v = record {
    at = λ s h. same_ledger s _ refl refl refl (omega arith) h;
  }

  pub save_list-Keeps : (l : CandidateObjectListVersion) → Keeps P (save_list l)
  unfolding save_list
  save_list-Keeps l = record { at = λ s h. same_ledger s _ refl refl refl (omega arith) h }

  pub save_flag-Keeps : (f : FeatureFlagSetting) → Keeps P (save_flag env f)
  unfolding save_flag
  save_flag-Keeps f = record { at = λ s h. same_ledger s _ refl refl refl (omega arith) h }

  pub save_review-Keeps : (r : EventReviewDraft) → Keeps P (save_review r)
  unfolding save_review
  save_review-Keeps r = record { at = λ s h. same_ledger s _ refl refl refl (omega arith) h }

  pub record_entry-Keeps : (a : EntryArgs) → Keeps P (record_entry env a)
  record_entry-Keeps a = record { at = law.records a }

  pub task_event-Keeps :
      (t : ResponseTask) (a : Action) (r : TaskActionRequest) (p : Option TaskStatus) (d : Detail)
      → Keeps P (task_event env t a r p d)
  unfolding task_event
  task_event-Keeps t a r p d = record { at = λ s h. law.records _ s h }

pub ruleset ledger_rules = (
  keeps_rules, now-Keeps, new_id-Keeps, save_task-Keeps, save_event-Keeps, save_extension-Keeps,
  save_feedback-Keeps, save_escalation-Keeps, save_assignment-Keeps, save_evaluation-Keeps,
  save_snapshot-Keeps, save_message-Keeps, save_callback-Keeps, save_alert-Keeps,
  save_object_version-Keeps, save_flag-Keeps, save_list-Keeps, save_review-Keeps,
  record_entry-Keeps, task_event-Keeps,
)

module _ (env : Env) (P : Store → Type 0) (law : LedgerLaw env P) where
  pub get_task-Keeps : (k : Ident) → Keeps P (get_task k)
  unfolding get_task
  get_task-Keeps k = search ledger_rules

  pub get_event-Keeps : (k : Ident) (b : Bool) → Keeps P (get_event k b)
  unfolding get_event
  get_event-Keeps k b = search ledger_rules depth 12
