-- ===== src/Response/Task.antt =====
-- ResponseTask of flood_system/response_workflow/models.py, with the part of it that an approval
-- fixes (`_task_payload_hash` of service.py digests that part).
use flood_agent.Base.{ℕ, Bool, true, false, Option, List, Ident, Time, Text, ◌==◌}
use flood_agent.Response.Enums.{OperatorRole, TaskStatus, ApprovalPolicy, EvidenceRole}

pub record PlanBasis : Type 0 where
  pub document : Ident
  pub version : Ident
  pub clause : Ident

-- The nine task fields of evidence_governance.py, and any other key of a field map.
pub data FieldName : Type 0 where
  trigger_condition risk_object responsible_party action deadline : FieldName
  resource_dependency feedback_requirement escalation_condition exception_condition : FieldName
  other_field : Ident → FieldName

pub field_eq : FieldName → FieldName → Bool
field_eq trigger_condition trigger_condition = true
field_eq risk_object risk_object = true
field_eq responsible_party responsible_party = true
field_eq action action = true
field_eq deadline deadline = true
field_eq resource_dependency resource_dependency = true
field_eq feedback_requirement feedback_requirement = true
field_eq escalation_condition escalation_condition = true
field_eq exception_condition exception_condition = true
field_eq (other_field a) (other_field b) = a == b
field_eq _ _ = false

-- `field_support` holds scores; a score is a number of ten-thousandths, the precision to which
-- `infer_task_field_support` rounds.
pub record TaskEvidenceRef : Type 0 where
  pub source_type : Ident
  pub source_id : Ident
  pub title : Ident
  pub excerpt : Ident
  pub roles : List EvidenceRole
  pub document_version : Option Ident
  pub clause : Option Ident
  pub source_locator : Ident
  pub field_support : List (FieldName × ℕ)

pub record ResponseTask : Type 0 where
  pub task_id : Ident
  pub event_id : Ident
  pub object_id : Ident
  pub version : ℕ
  pub title : Text
  pub action : Text
  pub responsible_organization : Ident
  pub responsible_role : Ident
  pub cooperate_roles : List Ident
  pub status : TaskStatus
  pub deadline_at : Time
  pub acknowledge_deadline_at : Time
  pub start_deadline_at : Option Time
  pub verification_deadline_at : Option Time
  pub required_evidence : List Text
  pub plan_basis : List PlanBasis
  pub approval_policy : ApprovalPolicy
  pub escalation_rule : Ident
  pub dependencies : List Ident
  pub generated_by_ai : Bool
  pub generation_version : Option Ident
  pub grounding_summary : Ident
  pub evidence_role_coverage : List (EvidenceRole × Bool)
  pub source_evidence : List TaskEvidenceRef
  pub validation_warnings : List Ident
  pub drafted_by : Ident
  pub created_at : Time
  pub updated_at : Time
  pub approved_version : Option ℕ
  pub assignee_id : Option Ident
  pub assignee_name : Option Ident
  pub assignee_role : Option OperatorRole
  pub assignment_version : ℕ
  pub approval_payload_hash : Option Ident
  pub evidence_package_hash : Option Ident
  pub evidence_package_id : Option Ident
  pub evidence_package_version : Option ℕ
  pub candidate_object_list_id : Option Ident
  pub candidate_object_list_version : Option ℕ
  pub candidate_object_list_hash : Option Ident
  pub task_schema_version : Ident
  pub rule_set_version : Ident
  pub dispatch_message_id : Option Ident
  pub creation_idempotency_key : Option Ident
  pub effective_start_deadline_at : Option Time
  pub effective_completion_deadline_at : Option Time
  pub effective_verification_deadline_at : Option Time
  pub active_extension_id : Option Ident
  pub last_rule_evaluation_id : Option Ident

-- The four entries under `deadlines` of the payload.
pub record PayloadDeadlines : Type 0 where
  pub acknowledge : Time
  pub start : Option Time
  pub complete : Time
  pub verify : Option Time

-- The dictionary whose canonical JSON `_task_payload_hash` digests.
pub record TaskPayload : Type 0 where
  pub task_id : Ident
  pub event_id : Ident
  pub object_id : Ident
  pub version : ℕ
  pub title : Text
  pub action : Text
  pub responsible_organization : Ident
  pub responsible_role : Ident
  pub cooperate_roles : List Ident
  pub deadlines : PayloadDeadlines
  pub required_evidence : List Text
  pub plan_basis : List PlanBasis
  pub dependencies : List Ident

abbrev pub payload_of : ResponseTask → TaskPayload
payload_of t = record {
  task_id = t.task_id;
  event_id = t.event_id;
  object_id = t.object_id;
  version = t.version;
  title = t.title;
  action = t.action;
  responsible_organization = t.responsible_organization;
  responsible_role = t.responsible_role;
  cooperate_roles = t.cooperate_roles;
  deadlines = record {
    acknowledge = t.acknowledge_deadline_at;
    start = t.start_deadline_at;
    complete = t.deadline_at;
    verify = t.verification_deadline_at;
  };
  required_evidence = t.required_evidence;
  plan_basis = t.plan_basis;
  dependencies = t.dependencies;
}
