-- ===== src/Response/Flags/Update.antt =====
-- `update_feature_flag` of flood_system/response_workflow/service.py.
use flood_agent.Base.{
  ℕ, zero, suc, ◌+◌, Bool, true, false, ◌&&◌, Option, none, some, List, [], ◌∷◌, ◌==◌, Ident, codes,
  text_eq, starts_with, filter_by,
}
use flood_agent.Response.Enums.{OperatorRole, admin}
use flood_agent.Response.Requests.{FeatureFlagUpdateRequest}
use flood_agent.Response.Records.{FeatureFlagSetting}
use flood_agent.Response.Entry.{
  configuration, feature_flag_changed, no_state, flag_note, flag_detail,
}
use flood_agent.Response.Store.{Env}
use flood_agent.Response.Store.Tables.{flag_text}
use flood_agent.Response.Exec.{bad_flag_key, M, pure, gets, require, now, save_flag, ◌>>=◌, ◌>>◌}
use flood_agent.Response.Guards.{require_role}
use flood_agent.Response.Timeline.{record_entry}
use flood_agent.Response.Flags.{flag_eq, role_eq}

unfoldable pub is_admin : OperatorRole → Bool
is_admin admin = true
is_admin _ = false

abbrev same_option : {A : Type 0} → (A → A → Bool) → Option A → Option A → Bool
same_option eq none none = true
same_option eq (some a) (some b) = eq a b
same_option eq _ _ = false

-- The condition of the list `matching`.
abbrev pub matches : FeatureFlagUpdateRequest → FeatureFlagSetting → Bool
matches request f =
    flag_eq f.flag_key request.flag_key
    && text_eq f.environment request.environment
    && same_option (λ a b. a == b) f.event_id request.event_id
    && same_option role_eq f.role request.role
    && same_option (λ a b. a == b) f.scenario request.scenario

-- `(matching[0].version + 1) if matching else 1`
abbrev pub next_version : List FeatureFlagSetting → ℕ
next_version [] = 1
next_version (f ∷ fs) = f.version + 1

-- The entry in the ledger of the event that the setting is for.
abbrev pub announce_flag :
    Env → FeatureFlagUpdateRequest → FeatureFlagSetting → Option Ident → M (Unit {0})
announce_flag env request setting none = pure tt
announce_flag env request setting (some zero) = pure tt
announce_flag env request setting (some (suc k)) = record_entry env (record {
  event_id = suc k;
  task_id = none;
  object_id = none;
  entry_type = configuration;
  action = feature_flag_changed;
  actor_id = request.operator_id;
  actor_role = request.operator_role;
  terminal_id = request.terminal_id;
  before_state = no_state;
  after_state = flag_note request.flag_key request.enabled setting.version;
  detail = flag_detail request.reason request.environment;
})

unfoldable pub update_feature_flag : Env → FeatureFlagUpdateRequest → M FeatureFlagSetting
update_feature_flag env request = do
  require_role request.operator_role is_admin
  require (starts_with (codes "feature.") (flag_text env request.flag_key)) bad_flag_key
  flags ← gets (λ s. s.flags)
  moment ← now env
  let setting : FeatureFlagSetting = record {
    flag_key = request.flag_key;
    enabled = request.enabled;
    environment = request.environment;
    event_id = request.event_id;
    role = request.role;
    scenario = request.scenario;
    version = next_version (filter_by (matches request) flags);
    reason = request.reason;
    updated_by = request.operator_id;
    terminal_id = request.terminal_id;
    updated_at = moment;
  }
  save_flag env setting
  announce_flag env request setting request.event_id
  pure setting
