-- ===== src/Response/Flags.antt =====
-- `is_feature_enabled` of flood_system/response_workflow/service.py, with the order of
-- `list_feature_flags`.
pub mod Precedence
pub mod Update
use flood_agent.Base.{
  ℕ, ◌+◌, Bool, true, false, not, ◌&&◌, ◌||◌, Option, none, some, List, [], ◌∷◌, ◌==◌, ltb,
  if◌then◌else◌, Ident, Text, text_eq, filter_by, is_some,
}
use flood_agent.Response.Enums.{
  OperatorRole, duty_officer, reviewer, commander, liaison, field_operator, auditor, admin,
  external_service,
}
use flood_agent.Response.Requests.{
  FlagKey, new_warning_model, object_candidate_service, structured_task_draft, rule_engine,
  new_approval_flow, task_state_machine, simulated_dispatch, audit_hash_chain, other_flag,
}
use flood_agent.Response.Records.{FeatureFlagSetting}
use flood_agent.Response.Dispatch.{production}

pub flag_eq : FlagKey → FlagKey → Bool
flag_eq new_warning_model new_warning_model = true
flag_eq object_candidate_service object_candidate_service = true
flag_eq structured_task_draft structured_task_draft = true
flag_eq rule_engine rule_engine = true
flag_eq new_approval_flow new_approval_flow = true
flag_eq task_state_machine task_state_machine = true
flag_eq simulated_dispatch simulated_dispatch = true
flag_eq audit_hash_chain audit_hash_chain = true
flag_eq (other_flag a) (other_flag b) = a == b
flag_eq _ _ = false

pub role_eq : OperatorRole → OperatorRole → Bool
role_eq duty_officer duty_officer = true
role_eq reviewer reviewer = true
role_eq commander commander = true
role_eq liaison liaison = true
role_eq field_operator field_operator = true
role_eq auditor auditor = true
role_eq admin admin = true
role_eq external_service external_service = true
role_eq _ _ = false

-- `value in {None, asked}`
abbrev fits : {A : Type 0} → (A → A → Bool) → Option A → Option A → Bool
fits eq none asked = true
fits eq (some a) none = false
fits eq (some a) (some b) = eq a b

abbrev one_if : Bool → ℕ
one_if true = 1
one_if false = 0

-- The first part of the sort key: how many of the three scopes a setting names.
abbrev pub specificity : FeatureFlagSetting → ℕ
specificity f = one_if (is_some f.event_id) + one_if (is_some f.role) + one_if (is_some f.scenario)

-- The first setting is before the second in the descending order of `(specificity, version)`.
abbrev pub outranks : FeatureFlagSetting → FeatureFlagSetting → Bool
outranks f g =
    ltb (specificity g) (specificity f) || specificity g == specificity f && ltb g.version f.version

-- The head of the list after the stable descending sort.
abbrev pub top_setting : List FeatureFlagSetting → Option FeatureFlagSetting
top_setting [] = none
top_setting (f ∷ fs) = elim (top_setting fs) [
  | none ↦ some f
  | some g ↦ some (if outranks g f then g else f)
]

unfoldable pub on_by_default : FlagKey → Bool
on_by_default (other_flag name) = false
on_by_default _ = true

-- The settings that match the arguments.
abbrev pub applies :
    FlagKey → Text → Option Ident → Option OperatorRole → Option Ident → FeatureFlagSetting → Bool
applies key environment event_id role scenario f =
    flag_eq f.flag_key key
    && text_eq f.environment environment
    && fits (λ a b. a == b) f.event_id event_id
    && fits role_eq f.role role
    && fits (λ a b. a == b) f.scenario scenario

unfoldable pub is_feature_enabled :
    List FeatureFlagSetting
    → FlagKey
    → Text
    → Option Ident
    → Option OperatorRole
    → Option Ident
    → Bool
unfolding flag_eq role_eq on_by_default
is_feature_enabled flags key environment event_id role scenario =
    elim (top_setting (filter_by (applies key environment event_id role scenario) flags)) [
      | some f ↦ f.enabled
      | none ↦ not (text_eq environment production) && on_by_default key
    ]
