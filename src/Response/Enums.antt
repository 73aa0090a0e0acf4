-- ===== src/Response/Enums.antt =====
-- The enumerations of flood_system/response_workflow/models.py that the workflow branches on.

pub data OperatorRole : Type 0 where
  duty_officer reviewer commander liaison field_operator auditor admin external_service :
      OperatorRole

pub data EventStatus : Type 0 where
  active closing closed : EventStatus

pub data ObjectVerificationStatus : Type 0 where
  pending confirmed excluded : ObjectVerificationStatus

pub data TaskStatus : Type 0 where
  draft pending_approval issued acknowledged in_progress pending_verification : TaskStatus
  completed escalated waived blocked partially_completed cancelled taken_over : TaskStatus

pub data OutboxStatus : Type 0 where
  pending sent partially_sent failed manual_takeover : OutboxStatus

pub data DispatchCallbackStatus : Type 0 where
  accepted delivered partial_success rejected : DispatchCallbackStatus

pub data CallbackSequenceState : Type 0 where
  in_order out_of_order : CallbackSequenceState

pub data ApprovalPolicy : Type 0 where
  reviewer_required commander_required : ApprovalPolicy

pub data ApprovalDecision : Type 0 where
  approved rejected : ApprovalDecision

pub data EvidenceRole : Type 0 where
  condition object responsibility procedure exception attribution : EvidenceRole

pub data FeedbackCategory : Type 0 where
  completion partial_completion blocked resource_shortage : FeedbackCategory
  coordination_request situation_update : FeedbackCategory

pub data RuleOutcome : Type 0 where
  pass soft_warning hard_block : RuleOutcome

pub data DeadlineExtensionStatus : Type 0 where
  requested approved rejected : DeadlineExtensionStatus
