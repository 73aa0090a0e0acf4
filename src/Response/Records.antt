-- ===== src/Response/Records.antt =====
-- The stored records of flood_system/response_workflow/models.py, other than the task.
mod Objects
mod Delivery
mod Review
pub use Objects.*
pub use Delivery.*
pub use Review.*
use flood_agent.Base.{ℕ, Bool, Option, List, Ident, Time, Text}
use flood_agent.Response.Enums.{
  OperatorRole, EventStatus, TaskStatus, ApprovalDecision, FeedbackCategory, RuleOutcome,
  DeadlineExtensionStatus,
}
use flood_agent.Response.Task.{FieldName, ResponseTask}
use flood_agent.Response.Requests.{EvidenceItem, FlagKey}

-- The versions of the engine and of the schema, which are constants, are left out.
pub record ResponseEvent : Type 0 where
  pub event_id : Ident
  pub title : Ident
  pub area_id : Ident
  pub status : EventStatus
  pub current_alert_version : ℕ
  pub created_at : Time
  pub updated_at : Time
  pub closed_at : Option Time
  pub closed_by : Option Ident
  pub source_type : Ident
  pub is_simulated : Bool

pub data PackageStatus : Type 0 where
  frozen : PackageStatus
  other_status : Ident → PackageStatus

pub record EvidenceConflict : Type 0 where
  pub conflict_id : Ident
  pub is_resolved : Bool  -- resolution_status == "resolved"

-- The fields of an evidence package that the task rules read.
pub record EvidencePackageVersion : Type 0 where
  pub package_id : Ident
  pub event_id : Ident
  pub object_id : Ident
  pub version : ℕ
  pub status : PackageStatus
  pub conflicts : List EvidenceConflict
  pub blocking_missing_fields : List FieldName
  pub field_evidence_map : List (FieldName × List Ident)
  pub content_hash : Ident
  pub created_at : Time

pub data RuleId : Type 0 where
  object_confirmed deadlines_ordered required_fields evidence_package_frozen : RuleId
  evidence_bound no_self_dependency cooperation_defined : RuleId

-- The message of a check is a function of its rule and outcome, and is left out.
pub record RuleCheckResult : Type 0 where
  pub rule_id : RuleId
  pub outcome : RuleOutcome

pub record RuleEvaluationRecord : Type 0 where
  pub evaluation_id : Ident
  pub event_id : Ident
  pub task_id : Ident
  pub task_version : ℕ
  pub rule_set_version : Ident
  pub overall_outcome : RuleOutcome
  pub checks : List RuleCheckResult
  pub evaluated_by : Ident
  pub terminal_id : Ident
  pub created_at : Time

pub data ChangeType : Type 0 where
  created revised approval_rejected : ChangeType

pub record TaskVersionSnapshot : Type 0 where
  pub snapshot_id : Ident
  pub task : ResponseTask
  pub change_type : ChangeType
  pub changed_fields : List Text
  pub note : Text
  pub created_by : Ident
  pub terminal_id : Ident
  pub created_at : Time

pub record TaskAssignmentRecord : Type 0 where
  pub assignment_id : Ident
  pub event_id : Ident
  pub task_id : Ident
  pub assignment_version : ℕ
  pub previous_assignee_id : Option Ident
  pub assignee_id : Ident
  pub assignee_name : Ident
  pub assignee_role : OperatorRole
  pub reason : Text
  pub assigned_by : Ident
  pub assigned_by_role : OperatorRole
  pub terminal_id : Ident
  pub created_at : Time

pub record ApprovalRecord : Type 0 where
  pub approval_id : Ident
  pub event_id : Ident
  pub task_id : Ident
  pub task_version : ℕ
  pub decision : ApprovalDecision
  pub operator_id : Ident
  pub operator_role : OperatorRole
  pub note : Text
  pub created_at : Time
  pub task_payload_hash : Ident
  pub evidence_package_hash : Ident
  pub task_schema_version : Ident
  pub rule_set_version : Ident
  pub rule_evaluation_id : Ident

pub record DeadlineExtensionRecord : Type 0 where
  pub extension_id : Ident
  pub event_id : Ident
  pub task_id : Ident
  pub task_version : ℕ
  pub status : DeadlineExtensionStatus
  pub original_start_deadline_at : Option Time
  pub original_completion_deadline_at : Time
  pub original_verification_deadline_at : Option Time
  pub proposed_start_deadline_at : Option Time
  pub proposed_completion_deadline_at : Time
  pub proposed_verification_deadline_at : Option Time
  pub request_reason : Text
  pub requested_by : Ident
  pub requested_by_role : OperatorRole
  pub decided_by : Option Ident
  pub decision_reason : Text
  pub created_at : Time
  pub decided_at : Option Time

-- The dictionary whose canonical JSON `feedback_dedupe_key` digests.
pub record FeedbackPayload : Type 0 where
  pub summary : Text
  pub blocked_reason : Text
  pub resource_gap : Text
  pub completion_percent : Option ℕ
  pub evidence : List (Text × Text)

pub record TaskFeedback : Type 0 where
  pub feedback_id : Ident
  pub event_id : Ident
  pub task_id : Ident
  pub object_id : Ident
  pub summary : Text
  pub evidence : List EvidenceItem
  pub blocked_reason : Option Text
  pub resource_gap : Option Text
  pub category : FeedbackCategory
  pub dedupe_key : Ident
  pub operator_id : Ident
  pub operator_role : OperatorRole
  pub created_at : Time

-- Why a task was escalated: a deadline that the sweep found, or a text of the feedback.
pub data DeadlineType : Type 0 where
  acknowledge start completion verification : DeadlineType

pub data EscalationReason : Type 0 where
  overdue : DeadlineType → EscalationReason
  reported : Text → EscalationReason

pub record EscalationRecord : Type 0 where
  pub escalation_id : Ident
  pub event_id : Ident
  pub task_id : Ident
  pub reason : EscalationReason
  pub previous_status : TaskStatus
  pub target_role : OperatorRole
  pub created_at : Time

pub record FeatureFlagSetting : Type 0 where
  pub flag_key : FlagKey
  pub enabled : Bool
  pub environment : Text
  pub event_id : Option Ident
  pub role : Option OperatorRole
  pub scenario : Option Ident
  pub version : ℕ
  pub reason : Text
  pub updated_by : Ident
  pub terminal_id : Ident
  pub updated_at : Time
