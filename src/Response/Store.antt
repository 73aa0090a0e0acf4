-- ===== src/Response/Store.antt =====
-- The repository as the workflow service sees it (flood_system/storage/response_repository.py),
-- and the environment of the service.
pub mod Laws
pub mod Keys
pub mod Tables
use flood_agent.Base.{
  ℕ, ◌+◌, Bool, true, false, Option, none, some, List, [], ◌∷◌, ◌++◌, ◌&&◌, ◌==◌, if◌then◌else◌,
  Ident, Time, Text, find, filter_by, sort_on, any,
}
use mathlib.Core.List.{reverse}
use flood_agent.Response.Enums.{OutboxStatus}
use flood_agent.Response.Task.{ResponseTask, TaskPayload, TaskEvidenceRef}
use flood_agent.Response.Records.{
  ResponseEvent, EventRiskObject, EvidencePackageVersion, RuleEvaluationRecord, TaskVersionSnapshot,
  TaskAssignmentRecord, ApprovalRecord, DeadlineExtensionRecord, FeedbackPayload, TaskFeedback,
  EscalationRecord, OutboxMessage, DispatchCallbackRecord, FeatureFlagSetting, MessageKey,
  CallbackKey, AlertSnapshot, RiskObjectVersionSnapshot, CandidateObjectListVersion,
  EventReviewDraft, VerificationFacts, CandidateRunRecord, ListFacts, gateway_key, external_key,
  dispatch_key,
}
use flood_agent.Response.Entry.{EntryBody, TimelineEntry}

-- The prefixes that `_id` puts before a random number.
pub data IdPrefix : Type 0 where
  log apr ruleeval outbox callback assign fdb ext esc taskver alt objver flood tsk review : IdPrefix

-- `transport_payload`
pub record TransportPayload : Type 0 where
  pub event_id : Ident
  pub task_id : Ident
  pub task_version : ℕ
  pub approval_id : Ident
  pub delivery_targets : List Ident
  pub approved_payload_hash : Ident

-- What the service takes from outside: the successive readings of the clock and of `uuid4`,
-- SHA-256 over canonical JSON, and Unicode lower case.
pub record Env : Type 0 where
  pub clock : ℕ → Time
  pub uuid : IdPrefix → ℕ → Ident
  pub payload_digest : TaskPayload → Ident
  pub evidence_digest : List TaskEvidenceRef → Ident
  pub entry_digest : EntryBody → Ident
  pub feedback_digest : FeedbackPayload → Ident
  pub lower : Text → Text
  -- FLOOD_ENVIRONMENT and FLOOD_SIMULATION_MOCK_TOKEN
  pub environment : Text
  pub mock_token : Ident
  -- `_stable_id("SIMDISPATCH", ...)` over the payload for the transport
  pub dispatch_digest : TransportPayload → Ident
  -- f"SIMREQ-{message_id}" and f"SIMTRACE-{event_id}"
  pub request_tag : Ident → Ident
  pub trace_tag : Ident → Ident
  -- SHA-256 of the text of an alert, and f"FLOOD-{now:%Y%m%d}-{hex}"
  pub content_digest : Ident → Ident
  pub event_tag : Time → Ident → Ident
  pub verification_digest : VerificationFacts → Ident
  pub list_digest : ListFacts → Ident
  -- f"CANDLIST-{digest of the event}"
  pub list_tag : Ident → Ident
  -- the text that an identifier stands for
  pub text_of : Ident → Text

-- The tables, each in the order of insertion, and how often the clock and `uuid4` were read.
pub record Store : Type 0 where
  pub events : List ResponseEvent
  pub alerts : List AlertSnapshot
  pub objects : List EventRiskObject
  pub object_versions : List RiskObjectVersionSnapshot
  pub object_lists : List CandidateObjectListVersion
  pub candidate_runs : List CandidateRunRecord
  pub packages : List EvidencePackageVersion
  pub tasks : List ResponseTask
  pub timeline : List TimelineEntry
  pub feedback : List TaskFeedback
  pub escalations : List EscalationRecord
  pub assignments : List TaskAssignmentRecord
  pub extensions : List DeadlineExtensionRecord
  pub approvals : List ApprovalRecord
  pub evaluations : List RuleEvaluationRecord
  pub snapshots : List TaskVersionSnapshot
  pub outbox_messages : List OutboxMessage
  pub callbacks : List DispatchCallbackRecord
  pub flags : List FeatureFlagSetting
  pub reviews : List EventReviewDraft
  pub ticks : ℕ
  pub minted : ℕ

-- `SELECT … WHERE task_id = ?`
abbrev pub find_task : Ident → List ResponseTask → Option ResponseTask
find_task k [] = none
find_task k (t ∷ ts) = if t.task_id == k then some t else find_task k ts

-- `INSERT … ON CONFLICT(task_id) DO UPDATE`
abbrev pub put_task : ResponseTask → List ResponseTask → List ResponseTask
put_task u [] = u ∷ []
put_task u (t ∷ ts) = if t.task_id == u.task_id then u ∷ ts else t ∷ put_task u ts

abbrev pub find_event : Ident → List ResponseEvent → Option ResponseEvent
find_event k [] = none
find_event k (e ∷ es) = if e.event_id == k then some e else find_event k es

abbrev pub put_event : ResponseEvent → List ResponseEvent → List ResponseEvent
put_event u [] = u ∷ []
put_event u (e ∷ es) = if e.event_id == u.event_id then u ∷ es else e ∷ put_event u es

abbrev pub find_extension : Ident → List DeadlineExtensionRecord → Option DeadlineExtensionRecord
find_extension k [] = none
find_extension k (e ∷ es) = if e.extension_id == k then some e else find_extension k es

abbrev pub put_extension :
    DeadlineExtensionRecord → List DeadlineExtensionRecord → List DeadlineExtensionRecord
put_extension u [] = u ∷ []
put_extension u (e ∷ es) =
    if e.extension_id == u.extension_id then u ∷ es else e ∷ put_extension u es

-- `get_event_risk_object`
abbrev pub find_object : Ident → Ident → List EventRiskObject → Option EventRiskObject
find_object e o = find (λ item. item.event_id == e && item.object_id == o)

-- `list_response_tasks`: `ORDER BY updated_at DESC`.
abbrev pub list_tasks : Ident → List ResponseTask → List ResponseTask
list_tasks e ts =
    reverse (sort_on (λ t. t.updated_at) (reverse (filter_by (λ t. t.event_id == e) ts)))

-- `list_timeline_entries`: `ORDER BY created_at, rowid`.
abbrev pub list_timeline : Ident → List TimelineEntry → List TimelineEntry
list_timeline e l = sort_on (λ x. x.created_at) (filter_by (λ x. x.event_id == e) l)

-- `list_task_feedback`: `ORDER BY created_at`.
abbrev pub list_feedback : Ident → List TaskFeedback → List TaskFeedback
list_feedback k l = sort_on (λ x. x.created_at) (filter_by (λ x. x.task_id == k) l)

-- `list_evidence_packages`: `ORDER BY created_at, version`, a sort by each key from the last on.
abbrev pub list_packages : Ident → Ident → List EvidencePackageVersion → List EvidencePackageVersion
list_packages e o l =
    sort_on (λ p. p.created_at)
      (sort_on (λ p. p.version) (filter_by (λ p. p.event_id == e && p.object_id == o) l))

abbrev pub message_key_eq : MessageKey → MessageKey → Bool
message_key_eq (dispatch_key a m h) (dispatch_key b n k) = a == b && m == n && h == k

abbrev pub callback_key_eq : CallbackKey → CallbackKey → Bool
callback_key_eq (gateway_key a m) (gateway_key b n) = message_key_eq a b && m == n
callback_key_eq (external_key a) (external_key b) = a == b
callback_key_eq _ _ = false

-- `get_outbox_message`
abbrev pub find_message : Ident → List OutboxMessage → Option OutboxMessage
find_message k = find (λ m. m.message_id == k)

-- `get_outbox_message_by_idempotency_key`
abbrev pub find_message_key : MessageKey → List OutboxMessage → Option OutboxMessage
find_message_key k = find (λ m. message_key_eq m.idempotency_key k)

-- `save_outbox_message`: an insert, or an update of the row with this message id.
abbrev pub put_message : OutboxMessage → List OutboxMessage → List OutboxMessage
put_message u [] = u ∷ []
put_message u (m ∷ ms) = if m.message_id == u.message_id then u ∷ ms else m ∷ put_message u ms

-- `get_dispatch_callback_by_idempotency_key`
abbrev pub find_callback : CallbackKey → List DispatchCallbackRecord → Option DispatchCallbackRecord
find_callback k = find (λ c. callback_key_eq c.idempotency_key k)

-- `list_dispatch_callbacks`; no caller reads the order of the rows.
abbrev pub list_callbacks : Ident → List DispatchCallbackRecord → List DispatchCallbackRecord
list_callbacks k = filter_by (λ c. c.message_id == k)
