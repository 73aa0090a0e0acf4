-- ===== src/Response/Requests.antt =====
-- The request bodies of flood_system/response_workflow/models.py.
use flood_agent.Base.{ℕ, Bool, Option, List, Ident, Time, Text}
use flood_agent.Response.Enums.{
  OperatorRole, ApprovalPolicy, ApprovalDecision, EvidenceRole, ObjectVerificationStatus,
}
use flood_agent.Response.Task.{PlanBasis, TaskEvidenceRef}

pub record TaskActionRequest : Type 0 where
  pub operator_id : Ident
  pub operator_role : OperatorRole
  pub note : Text
  pub terminal_id : Ident
  pub expected_version : Option ℕ

-- Values for fields of a task: those of the keys that a dictionary of changes has.
pub record TaskChanges : Type 0 where
  pub title : Option Text
  pub action : Option Text
  pub responsible_organization : Option Ident
  pub responsible_role : Option Ident
  pub cooperate_roles : Option (List Ident)
  pub deadline_at : Option Time
  pub acknowledge_deadline_at : Option Time
  pub required_evidence : Option (List Text)
  pub plan_basis : Option (List PlanBasis)
  pub approval_policy : Option ApprovalPolicy
  pub escalation_rule : Option Ident
  pub dependencies : Option (List Ident)
  pub grounding_summary : Option Ident
  pub evidence_role_coverage : Option (List (EvidenceRole × Bool))
  pub source_evidence : Option (List TaskEvidenceRef)
  pub validation_warnings : Option (List Ident)

pub record TaskUpdateRequest : Type 0 where
  pub base : TaskActionRequest
  pub open base use *
  pub changes : TaskChanges
  pub open changes use *

pub record TaskAssignmentRequest : Type 0 where
  pub base : TaskActionRequest
  pub open base use *
  pub assignee_id : Ident
  pub assignee_name : Ident
  pub assignee_role : OperatorRole
  pub reason : Text

pub record ApprovalRequest : Type 0 where
  pub base : TaskActionRequest
  pub open base use *
  pub decision : ApprovalDecision

-- One dictionary of the list `evidence`: the entries that the program reads, as `str` shows them.
pub record EvidenceItem : Type 0 where
  pub type_text : Option Text
  pub value_text : Option Text
  pub url_text : Option Text

pub record FeedbackRequest : Type 0 where
  pub base : TaskActionRequest
  pub open base use *
  pub summary : Text
  pub evidence : List EvidenceItem
  pub blocked_reason : Option Text
  pub resource_gap : Option Text
  pub completion_percent : Option ℕ

pub record DeadlineExtensionRequest : Type 0 where
  pub base : TaskActionRequest
  pub open base use *
  pub proposed_start_deadline_at : Option Time
  pub proposed_completion_deadline_at : Time
  pub proposed_verification_deadline_at : Option Time
  pub reason : Text

pub record DeadlineExtensionDecisionRequest : Type 0 where
  pub base : TaskActionRequest
  pub open base use *
  pub approved : Bool
  pub reason : Text

-- The key of a feature flag: those that are on by default, and any other.
pub data FlagKey : Type 0 where
  new_warning_model object_candidate_service structured_task_draft rule_engine : FlagKey
  new_approval_flow task_state_machine simulated_dispatch audit_hash_chain : FlagKey
  other_flag : Ident → FlagKey

pub record FeatureFlagUpdateRequest : Type 0 where
  pub base : TaskActionRequest
  pub open base use *
  pub flag_key : FlagKey
  pub enabled : Bool
  pub environment : Text
  pub event_id : Option Ident
  pub role : Option OperatorRole
  pub scenario : Option Ident
  pub reason : Text

-- The geometry of the affected area and the life-cycle status are carried along by their value.
pub record AlertInput : Type 0 where
  pub alert_id : Ident
  pub source_department : Ident
  pub disaster_type : Ident
  pub level : Ident
  pub issued_at : Time
  pub valid_until : Option Time
  pub affected_area : Ident
  pub affected_geometry : Option Ident
  pub raw_content : Ident
  pub source_type : Ident
  pub source_version : Ident
  pub is_simulated : Bool
  pub lifecycle_status : Ident

pub record EventCreateRequest : Type 0 where
  pub title : Ident
  pub area_id : Ident
  pub alert : AlertInput
  pub operator_id : Ident
  pub operator_role : OperatorRole
  pub terminal_id : Ident

pub record AlertAppendRequest : Type 0 where
  pub alert : AlertInput
  pub operator_id : Ident
  pub operator_role : OperatorRole
  pub terminal_id : Ident

pub data RegistryStatus : Type 0 where
  registry_active : RegistryStatus
  other_registry : Ident → RegistryStatus

-- The fields that the service carries along without reading them are one value, `description`.
pub record RiskObjectInput : Type 0 where
  pub object_id : Ident
  pub canonical_object_id : Option Ident
  pub aliases : List Text
  pub duplicate_of : Option Ident
  pub name : Text
  pub source_refs : List Ident
  pub risk_score : ℕ
  pub registry_status : RegistryStatus
  pub registry_valid_until : Option Time
  pub data_version : Ident
  pub is_simulated : Bool
  pub description : Ident

pub record RiskObjectBatchRequest : Type 0 where
  pub objects : List RiskObjectInput
  pub operator_id : Ident
  pub operator_role : OperatorRole
  pub terminal_id : Ident

pub record RiskObjectVerificationRequest : Type 0 where
  pub decision : ObjectVerificationStatus
  pub note : Text
  pub operator_id : Ident
  pub operator_role : OperatorRole
  pub terminal_id : Ident

-- As its validator leaves it, which fills in the deadlines that are missing.
pub record TaskCreateRequest : Type 0 where
  pub object_id : Ident
  pub title : Text
  pub action : Text
  pub responsible_organization : Ident
  pub responsible_role : Ident
  pub cooperate_roles : List Ident
  pub deadline_at : Time
  pub acknowledge_deadline_at : Time
  pub start_deadline_at : Option Time
  pub verification_deadline_at : Option Time
  pub required_evidence : List Text
  pub plan_basis : List PlanBasis
  pub approval_policy : ApprovalPolicy
  pub escalation_rule : Ident
  pub dependencies : List Ident
  pub operator_id : Ident
  pub operator_role : OperatorRole
  pub terminal_id : Ident
  pub generated_by_ai : Bool
  pub generation_version : Option Ident
  pub grounding_summary : Ident
  pub evidence_role_coverage : List (EvidenceRole × Bool)
  pub source_evidence : List TaskEvidenceRef
  pub validation_warnings : List Ident
  pub evidence_package_id : Option Ident
  pub evidence_package_version : Option ℕ
  pub evidence_package_hash : Option Ident
  pub candidate_object_list_id : Option Ident
  pub candidate_object_list_version : Option ℕ
  pub candidate_object_list_hash : Option Ident
  pub idempotency_key : Option Ident

pub record CandidateObjectListFreezeRequest : Type 0 where
  pub base : TaskActionRequest
  pub open base use *
  pub object_ids : List Ident
