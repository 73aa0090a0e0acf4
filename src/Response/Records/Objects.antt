-- ===== src/Response/Records/Objects.antt =====
-- The records of alerts, risk objects and candidate lists of
-- flood_system/response_workflow/models.py.
use flood_agent.Base.{ℕ, Bool, Option, List, Ident, Time, Text}
use flood_agent.Response.Enums.{OperatorRole, ObjectVerificationStatus}
use flood_agent.Response.Requests.{RiskObjectInput, AlertInput}

pub record EventRiskObject : Type 0 where
  pub input : RiskObjectInput
  pub open input use *
  pub event_id : Ident
  pub verification_status : ObjectVerificationStatus
  pub verified_by : Option Ident
  pub verified_at : Option Time
  pub verification_note : Text
  pub created_at : Time
  pub stale : Bool
  pub candidate_run_id : Option Ident
  pub version : ℕ
  pub updated_at : Option Time

-- `change_type` of a version of a risk object; the last but one is f"candidate_{decision}".
pub data ObjectChange : Type 0 where
  candidate_added candidate_updated candidate_duplicate_merged : ObjectChange
  candidate_decided : ObjectVerificationStatus → ObjectChange
  warning_revision_marked_stale : ObjectChange

pub record RiskObjectVersionSnapshot : Type 0 where
  pub snapshot_id : Ident
  pub event_id : Ident
  pub object_id : Ident
  pub version : ℕ
  pub object : EventRiskObject
  pub change_type : ObjectChange
  pub changed_by : Ident
  pub terminal_id : Ident
  pub created_at : Time

pub record AlertSnapshot : Type 0 where
  pub alert : AlertInput
  pub open alert use {alert_id, raw_content}
  pub snapshot_id : Ident
  pub event_id : Ident
  pub version : ℕ
  pub created_at : Time
  pub raw_payload_hash : Ident

pub record CandidateObjectReference : Type 0 where
  pub object_id : Ident
  pub object_version : ℕ
  pub candidate_run_id : Option Ident
  pub data_version : Ident
  pub verification_hash : Ident

-- Its status is "frozen" always, and is left out.
pub record CandidateObjectListVersion : Type 0 where
  pub list_id : Ident
  pub event_id : Ident
  pub version : ℕ
  pub alert_snapshot_id : Ident
  pub source_run_ids : List Ident
  pub objects : List CandidateObjectReference
  pub content_hash : Ident
  pub note : Text
  pub is_simulated : Bool
  pub frozen_by : Ident
  pub frozen_role : OperatorRole
  pub terminal_id : Ident
  pub frozen_at : Time

pub data RunStatus : Type 0 where
  completed_run : RunStatus
  other_run : Ident → RunStatus

-- The fields of a run of the candidate discovery that freezing a list reads.
pub record CandidateRunRecord : Type 0 where
  pub run_id : Ident
  pub event_id : Ident
  pub alert_snapshot_id : Ident
  pub status : RunStatus
  pub stale_at : Option Time

-- The dictionary whose digest is the hash of a frozen list.
pub record ListFacts : Type 0 where
  pub event_id : Ident
  pub alert_snapshot_id : Ident
  pub source_run_ids : List Ident
  pub objects : List CandidateObjectReference

-- The dictionary that `_candidate_object_verification_hash` digests.
pub record VerificationFacts : Type 0 where
  pub object_id : Ident
  pub version : ℕ
  pub verification_status : ObjectVerificationStatus
  pub verified_by : Option Ident
  pub verified_at : Option Time
  pub candidate_run_id : Option Ident
  pub data_version : Ident
  pub source_refs : List Ident
