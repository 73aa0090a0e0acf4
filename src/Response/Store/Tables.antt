-- ===== src/Response/Store/Tables.antt =====
-- The tables of alerts, risk objects and feature flags (flood_system/storage/response_repository.py).
use flood_agent.Base.{
  ◌≡◌, arith, Bool, true, false, ◌&&◌, ◌||◌, Option, none, some, List, [], ◌∷◌, ◌++◌, ◌==◌, ltb,
  if◌then◌else◌, Ident, Text, codes, text_eq, filter_by, sort_on,
}
use flood_agent.Response.Enums.{OperatorRole}
use flood_agent.Response.Roles.{role_value}
use flood_agent.Response.Requests.{
  FlagKey, new_warning_model, object_candidate_service, structured_task_draft, rule_engine,
  new_approval_flow, task_state_machine, simulated_dispatch, audit_hash_chain, other_flag,
}
use flood_agent.Response.Records.{
  CandidateObjectListVersion, EventRiskObject, AlertSnapshot, FeatureFlagSetting, TaskFeedback,
  EscalationRecord, EventReviewDraft,
}
use flood_agent.Response.Store.{Env, find_object}

-- `list_alert_snapshots`: `ORDER BY version`.
abbrev pub list_alerts : Ident → List AlertSnapshot → List AlertSnapshot
list_alerts k l = sort_on (λ a. a.version) (filter_by (λ a. a.event_id == k) l)

-- `list_event_risk_objects`: `ORDER BY created_at`.
abbrev pub list_objects : Ident → List EventRiskObject → List EventRiskObject
list_objects k l = sort_on (λ o. o.created_at) (filter_by (λ o. o.event_id == k) l)

-- `list_candidate_object_lists`: `ORDER BY version`.
abbrev pub list_object_lists :
    Ident → List CandidateObjectListVersion → List CandidateObjectListVersion
list_object_lists k l = sort_on (λ x. x.version) (filter_by (λ x. x.event_id == k) l)

-- `list_event_feedback`: `ORDER BY created_at`.
abbrev pub list_event_feedback : Ident → List TaskFeedback → List TaskFeedback
list_event_feedback k l = sort_on (λ f. f.created_at) (filter_by (λ f. f.event_id == k) l)

-- `list_escalations`: `ORDER BY created_at`.
abbrev pub list_escalations : Ident → List EscalationRecord → List EscalationRecord
list_escalations k l = sort_on (λ e. e.created_at) (filter_by (λ e. e.event_id == k) l)

-- `save_event_review_draft`: `INSERT … ON CONFLICT(review_id) DO UPDATE`.
abbrev pub put_review : EventReviewDraft → List EventReviewDraft → List EventReviewDraft
put_review u [] = u ∷ []
put_review u (r ∷ l) = if r.review_id == u.review_id then u ∷ l else r ∷ put_review u l

-- The primary key of a risk object of an event.
abbrev pub has_key : Ident → Ident → EventRiskObject → Bool
has_key k i o = o.event_id == k && o.object_id == i

-- `save_event_risk_object`: `INSERT … ON CONFLICT(event_id, object_id) DO UPDATE`.
abbrev pub put_object : EventRiskObject → List EventRiskObject → List EventRiskObject
put_object u [] = u ∷ []
put_object u (o ∷ l) = if has_key u.event_id u.object_id o then u ∷ l else o ∷ put_object u l

pub find_object-put_object :
    (k i : Ident) (u : EventRiskObject) (l : List EventRiskObject)
    → find_object k i (put_object u l) ≡ (if has_key k i u then some u else find_object k i l)
find_object-put_object k i u [] = ground arith
find_object-put_object k i u (o ∷ l) = ground (arith, find_object-put_object k i u l)

-- The text of a flag key.
abbrev pub flag_text : Env → FlagKey → Text
flag_text env new_warning_model = codes "feature.new_warning_model"
flag_text env object_candidate_service = codes "feature.object_candidate_service"
flag_text env structured_task_draft = codes "feature.structured_task_draft"
flag_text env rule_engine = codes "feature.rule_engine"
flag_text env new_approval_flow = codes "feature.new_approval_flow"
flag_text env task_state_machine = codes "feature.task_state_machine"
flag_text env simulated_dispatch = codes "feature.simulated_dispatch"
flag_text env audit_hash_chain = codes "feature.audit_hash_chain"
flag_text env (other_flag name) = env.text_of name

-- `value or "*"`
abbrev text_or_star : Env → Option Ident → Text
text_or_star env none = codes "*"
text_or_star env (some a) = if a == 0 then codes "*" else env.text_of a

abbrev role_or_star : Option OperatorRole → Text
role_or_star none = codes "*"
role_or_star (some r) = role_value r

-- `_feature_scope_key`
abbrev pub feature_scope_key : Env → FeatureFlagSetting → Text
feature_scope_key env f =
    f.environment
    ++ codes "|"
    ++ text_or_star env f.event_id
    ++ codes "|"
    ++ role_or_star f.role
    ++ codes "|"
    ++ text_or_star env f.scenario

-- The order of texts by their code points.
abbrev pub text_lt : Text → Text → Bool
text_lt [] [] = false
text_lt [] (b ∷ t) = true
text_lt (a ∷ s) [] = false
text_lt (a ∷ s) (b ∷ t) = ltb a b || a == b && text_lt s t

-- The order of `list_feature_flags`: `ORDER BY flag_key, scope_key`.
abbrev pub flag_before : Env → FeatureFlagSetting → FeatureFlagSetting → Bool
flag_before env f g =
    text_lt (flag_text env f.flag_key) (flag_text env g.flag_key)
    || text_eq (flag_text env f.flag_key) (flag_text env g.flag_key)
      && text_lt (feature_scope_key env f) (feature_scope_key env g)

abbrev pub same_flag : Env → FeatureFlagSetting → FeatureFlagSetting → Bool
same_flag env f g =
    text_eq (flag_text env f.flag_key) (flag_text env g.flag_key)
    && text_eq (feature_scope_key env f) (feature_scope_key env g)

-- `save_feature_flag`, in a table that is kept in the order of `list_feature_flags`.
abbrev pub put_flag : Env → FeatureFlagSetting → List FeatureFlagSetting → List FeatureFlagSetting
put_flag env u [] = u ∷ []
put_flag env u (f ∷ l) =
    if same_flag env u f
    then u ∷ l
    else (if flag_before env u f then u ∷ f ∷ l else f ∷ put_flag env u l)
