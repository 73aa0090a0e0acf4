-- ===== src/Response/Entry.antt =====
-- TimelineEntry of flood_system/response_workflow/models.py: one line of an event's audit ledger.
-- The action names and the keys of the `detail` dictionaries are constructors.
use flood_agent.Base.{ℕ, Bool, Option, List, Ident, Time, Text}
use flood_agent.Response.Enums.{
  OperatorRole, EventStatus, TaskStatus, FeedbackCategory, RuleOutcome, OutboxStatus,
  CallbackSequenceState, ObjectVerificationStatus,
}
use flood_agent.Response.Records.{
  RuleId, DeadlineType, EscalationReason, GatewayStatus, Scenario, CallbackKey, CallbackPayload,
  ObjectChange,
}
use flood_agent.Response.Requests.{FlagKey, RegistryStatus, TaskChanges}

pub data EntryType : Type 0 where
  event alert risk_object task task_status dispatch dispatch_callback : EntryType
  configuration candidate_object_list review : EntryType

pub data Action : Type 0 where
  event_created event_closed event_review_draft_generated task_draft_revised task_submitted
        task_rules_evaluated :
      Action
  task_approved_and_issued task_rejected_to_draft task_acknowledged task_started : Action
  task_assigned task_reassigned duplicate_feedback_merged task_blocked_and_escalated : Action
  completion_submitted task_partially_completed situation_feedback_recorded : Action
  completion_verified completion_returned deadline_extension_requested : Action
  deadline_extension_approved deadline_extension_rejected task_cancelled task_taken_over : Action
  task_waived deadline_escalated simulated_dispatch_timeout : Action
  -- f"simulated_dispatch_{gateway_status}"
  simulated_dispatch_status : GatewayStatus → Action
  duplicate_dispatch_callback_ignored out_of_order_dispatch_callback_recorded : Action
  task_draft_created candidate_object_list_frozen dispatch_callback_recorded alert_version_appended
        feature_flag_changed :
      Action
  -- the change type of a risk object
  candidate_change : ObjectChange → Action

-- The dictionaries `before_state` and `after_state`.
pub data StateNote : Type 0 where
  no_state : StateNote
  status_note : TaskStatus → StateNote
  status_version : TaskStatus → ℕ → StateNote
  event_note : EventStatus → StateNote
  outbox_note : OutboxStatus → StateNote
  event_alert_note : EventStatus → ℕ → StateNote
  alert_note : ℕ → StateNote
  list_note : Ident → ℕ → StateNote
  score_note : ℕ → StateNote
  score_status_note : ℕ → ObjectVerificationStatus → StateNote
  verification_note : ObjectVerificationStatus → StateNote
  flag_note : FlagKey → Bool → ℕ → StateNote
  fields_note : TaskChanges → StateNote

pub data Detail : Type 0 where
  version_detail : ℕ → Detail
  -- the version, `changed_fields` and the note
  revision_detail : ℕ → List Text → Text → Detail
  -- the review draft, the number of entries that it is made from, and the note
  review_detail : Ident → ℕ → Text → Detail
  rules_detail : Ident → RuleOutcome → List RuleId → List RuleId → Detail
  decision_detail : Ident → Ident → Ident → Option Ident → Text → Detail
  note_detail : Text → Detail
  assignment_detail : Ident → ℕ → Option Ident → Ident → Text → Detail
  duplicate_detail : Ident → FeedbackCategory → Ident → Detail
  feedback_detail : Ident → Text → FeedbackCategory → Option Ident → Detail
  extension_detail : Ident → Text → Detail
  overdue_detail : EscalationReason → DeadlineType → Ident → Detail
  close_detail : Text → ℕ → Detail
  timeout_detail : Ident → Scenario → Detail
  dispatch_detail : Ident → Scenario → ℕ → ℕ → ℕ → Detail
  -- the last is `detected_during_insert`
  ignored_detail : Ident → Ident → CallbackKey → Bool → Detail
  callback_detail : Ident → Ident → CallbackPayload → CallbackSequenceState → Detail
  alert_detail : Ident → ℕ → Detail
  object_detail :
      ℕ
      → List Ident
      → Option Ident
      → List Text
      → Option Ident
      → RegistryStatus
      → Option Time
      → Detail
  flag_detail : Text → Text → Detail
  draft_detail : Bool → ℕ → Detail
  list_detail : Ident → List Ident → List Ident → Ident → Text → Detail

-- All of an entry but its `record_hash`: what `_timeline_entry_hash` digests.
pub record EntryBody : Type 0 where
  pub entry_id : Ident
  pub event_id : Ident
  pub task_id : Option Ident
  pub object_id : Option Ident
  pub entry_type : EntryType
  pub action : Action
  pub actor_id : Ident
  pub actor_role : OperatorRole
  pub terminal_id : Ident
  pub before_state : StateNote
  pub after_state : StateNote
  pub detail : Detail
  pub previous_hash : Ident
  pub created_at : Time

pub record TimelineEntry : Type 0 where
  pub body : EntryBody
  pub open body use *
  pub record_hash : Ident
