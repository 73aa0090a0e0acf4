-- ===== src/Response/Exec.antt =====
-- A call of a service method, as a state and error monad over the store: the exceptions, the reads
-- of the clock and of `uuid4`, and the writes of the repository.
pub mod Keeps
pub mod Leads
use flood_agent.Base.{
  ◌+◌, Bool, Option, none, some, List, [], ◌∷◌, ◌++◌, if◌then◌else◌, Ident, Time,
}
use flood_agent.Response.Task.{ResponseTask}
use flood_agent.Response.Records.{
  ResponseEvent, RuleEvaluationRecord, TaskVersionSnapshot, TaskAssignmentRecord,
  DeadlineExtensionRecord, TaskFeedback, EscalationRecord, OutboxMessage, DispatchCallbackRecord,
  AlertSnapshot, EventRiskObject, RiskObjectVersionSnapshot, CandidateObjectListVersion,
  FeatureFlagSetting, EventReviewDraft,
}
use flood_agent.Response.Store.{
  Env, IdPrefix, Store, put_task, put_event, put_extension, put_message, find_callback,
}
use flood_agent.Response.Store.Tables.{put_object, put_flag, put_review}

-- The exceptions, by their class, each with the condition that raises it.
pub data Error : Type 0 where
  -- PermissionError
  not_authorized commander_approval_required own_high_risk_task not_assigned_operator : Error
  own_result own_task own_extension disabled_in_production bad_token : Error
  -- LookupError
  event_not_found task_not_found extension_not_found message_not_found : Error
  object_not_found list_not_found : Error
  -- ValueError
  event_closed not_draft version_conflict unknown_dependencies hard_blocked : Error
  not_pending_approval bad_transition payload_mismatch not_assigned bad_assignee : Error
  bad_status evidence_missing not_pending_verification not_later already_decided : Error
  reason_required terminal_task no_tasks incomplete_tasks unknown_scenario_name : Error
  not_simulated bad_decision registry_inactive unknown_canonical bad_flag_key : Error
  object_not_confirmed not_latest_list outdated_list not_listed list_mismatch bad_binding : Error
  no_alert duplicate_ids no_candidates run_missing stale_run outdated_run : Error
  -- sqlite3.IntegrityError
  duplicate_key : Error

pub data Result (A : Type 0) : Type 0 where
  ok : A → Result A
  err : Error → Result A

-- Each save commits by itself, so what was written before a raise stays written.
abbrev pub M : Type 0 → Type 0
M A = Store → Result A × Store

module _ {A : Type 0} where
  unfoldable pub pure : A → M A
  pure a s = (ok a, s)

  unfoldable pub raise : Error → M A
  raise e s = (err e, s)

  unfoldable pub gets : (Store → A) → M A
  gets f s = (ok (f s), s)

  -- A branch between two actions.
  unfoldable pub choose : Bool → M A → M A → M A
  choose b m n s = if b then m s else n s

  unfoldable pub lift : Result A → M A
  lift r s = (r, s)

abbrev pub or_error : {A : Type 0} → Option A → Error → Result A
or_error none e = err e
or_error (some a) e = ok a

abbrev pub check : Bool → Error → Result (Unit {0})
check b e = if b then ok tt else err e

-- `if not b: raise e`
abbrev pub require : Bool → Error → M (Unit {0})
require b e = lift (check b e)

abbrev pub or_raise : {A : Type 0} → Option A → Error → M A
or_raise o e = lift (or_error o e)

-- `_now()`
unfoldable pub now : Env → M Time
now env s = (ok (env.clock s.ticks), record s { ticks = s.ticks + 1 })

-- `_id(prefix)`
unfoldable pub new_id : Env → IdPrefix → M Ident
new_id env p s = (ok (env.uuid p s.minted), record s { minted = s.minted + 1 })

-- `save_response_task`
unfoldable pub save_task : ResponseTask → M (Unit {0})
save_task t s = (ok tt, record s { tasks = put_task t s.tasks })

-- `save_response_event`
unfoldable pub save_event : ResponseEvent → M (Unit {0})
save_event e s = (ok tt, record s { events = put_event e s.events })

-- `save_deadline_extension`
unfoldable pub save_extension : DeadlineExtensionRecord → M (Unit {0})
save_extension e s = (ok tt, record s { extensions = put_extension e s.extensions })

-- `save_task_feedback`
unfoldable pub save_feedback : TaskFeedback → M (Unit {0})
save_feedback f s = (ok tt, record s { feedback = s.feedback ++ f ∷ [] })

-- `save_escalation_record`
unfoldable pub save_escalation : EscalationRecord → M (Unit {0})
save_escalation e s = (ok tt, record s { escalations = s.escalations ++ e ∷ [] })

-- `save_task_assignment`
unfoldable pub save_assignment : TaskAssignmentRecord → M (Unit {0})
save_assignment a s = (ok tt, record s { assignments = s.assignments ++ a ∷ [] })

-- `save_rule_evaluation`
unfoldable pub save_evaluation : RuleEvaluationRecord → M (Unit {0})
save_evaluation r s = (ok tt, record s { evaluations = s.evaluations ++ r ∷ [] })

-- `save_task_version_snapshot`
unfoldable pub save_snapshot : TaskVersionSnapshot → M (Unit {0})
save_snapshot v s = (ok tt, record s { snapshots = s.snapshots ++ v ∷ [] })

-- `save_outbox_message`
unfoldable pub save_message : OutboxMessage → M (Unit {0})
save_message m s = (ok tt, record s { outbox_messages = put_message m s.outbox_messages })

-- `save_dispatch_callback`: an insert that does nothing on a key that is there, and a read back.
unfoldable pub save_callback : DispatchCallbackRecord → M DispatchCallbackRecord
save_callback c s = elim (find_callback c.idempotency_key s.callbacks) [
  | none ↦ (ok c, record s { callbacks = s.callbacks ++ c ∷ [] })
  | some old ↦ (ok old, s)
]

-- `save_alert_snapshot`
unfoldable pub save_alert : AlertSnapshot → M (Unit {0})
save_alert a s = (ok tt, record s { alerts = s.alerts ++ a ∷ [] })

-- `save_event_risk_object`
unfoldable pub save_object : EventRiskObject → M (Unit {0})
save_object o s = (ok tt, record s { objects = put_object o s.objects })

-- `save_risk_object_version`
unfoldable pub save_object_version : RiskObjectVersionSnapshot → M (Unit {0})
save_object_version v s = (ok tt, record s { object_versions = s.object_versions ++ v ∷ [] })

-- `save_feature_flag`
unfoldable pub save_flag : Env → FeatureFlagSetting → M (Unit {0})
save_flag env f s = (ok tt, record s { flags = put_flag env f s.flags })

-- `save_candidate_object_list`
unfoldable pub save_list : CandidateObjectListVersion → M (Unit {0})
save_list l s = (ok tt, record s { object_lists = s.object_lists ++ l ∷ [] })

-- `save_event_review_draft`
unfoldable pub save_review : EventReviewDraft → M (Unit {0})
save_review r s = (ok tt, record s { reviews = put_review r s.reviews })

module _ {A B : Type 0} where
  abbrev pub continue : Result A → (A → M B) → M B
  continue (ok a) f s = f a s
  continue (err e) f s = (err e, s)

  infixl 5 ◌>>=◌ ◌>>◌
  -- Opening this opens the actions above too.
  unfoldable pub ◌>>=◌ : M A → (A → M B) → M B
  unfolding pure raise gets choose lift now new_id save_task save_event save_extension save_feedback
      save_escalation save_assignment save_evaluation save_snapshot save_message save_callback
      save_alert save_object save_object_version save_flag save_list save_review
  ◌>>=◌ m f s = let (r, s') = m s in continue r f s'

  abbrev pub ◌>>◌ : M A → M B → M B
  m >> k = m >>= λ _. k
