-- ===== src/Response/Lifecycle/Revisions.antt =====
-- Creating an event, revising an alert, changing a flag and adding or verifying risk objects change no
-- task.
use flood_agent.Base.{◌≡◌, refl, List, Ident}
use flood_agent.Response.Task.{ResponseTask}
use flood_agent.Response.Requests.{
  EventCreateRequest, AlertAppendRequest, FeatureFlagUpdateRequest,
  CandidateObjectListFreezeRequest, RiskObjectBatchRequest, RiskObjectVerificationRequest,
}
use flood_agent.Response.Records.{EventRiskObject}
use flood_agent.Response.Store.{Env, Store}
use flood_agent.Response.Exec.{
  save_event, save_alert, save_object, save_object_version, save_flag, save_list,
}
use flood_agent.Response.Exec.Keeps.{Keeps}
use flood_agent.Response.Alerts.{create_event, append_alert}
use flood_agent.Response.Candidates.{freeze_candidate_object_list}
use flood_agent.Response.Objects.{add_risk_objects, verify_risk_object}
use flood_agent.Response.Flags.Update.{update_feature_flag}
use flood_agent.Response.Revisions.{
  Allows, create_event-Keeps, append_alert-Keeps, update_feature_flag-Keeps, freeze-Keeps,
  add_risk_objects-Keeps, verify_risk_object-Keeps,
}
use flood_agent.Response.Lifecycle.Tables.{OnTasks, clock_only, uuid_only, entry_only}
use flood_agent.Response.Lifecycle.{Effect, untouched}

module _ (env : Env) (P : List ResponseTask → Type 0) where
  task_allows : Allows env (OnTasks P)
  unfolding save_event save_alert save_object_version save_flag save_list
  task_allows = record {
    clock = clock_only env P;
    uuid = uuid_only env P;
    event = λ e. record { at = λ s h. h };
    alert = λ a. record { at = λ s h. h };
    object_version = λ v. record { at = λ s h. h };
    flag = λ f. record { at = λ s h. h };
    list = λ l. record { at = λ s h. h };
    entry = entry_only env P;
  }

  object_only : (o : EventRiskObject) → Keeps (OnTasks P) (save_object o)
  unfolding save_object
  object_only o = record { at = λ s h. h }

module _ (env : Env) (s : Store) where
  -- The task table is the one of before the call.
  abbrev Same : List ResponseTask → Type 0
  Same l = l ≡ s.tasks

  pub create_event-Effect : (r : EventCreateRequest) → Effect env s (create_event env r s).1
  create_event-Effect r =
      untouched ((create_event-Keeps env (OnTasks Same) (task_allows env Same) r).at s refl)

  pub append_alert-Effect :
      (k : Ident) (r : AlertAppendRequest) → Effect env s (append_alert env k r s).1
  append_alert-Effect k r = untouched (
      (append_alert-Keeps env (OnTasks Same) (task_allows env Same) (λ o e. object_only env Same o)
          k r).at
        s refl)

  pub update_feature_flag-Effect :
      (r : FeatureFlagUpdateRequest) → Effect env s (update_feature_flag env r s).1
  update_feature_flag-Effect r =
      untouched ((update_feature_flag-Keeps env (OnTasks Same) (task_allows env Same) r).at s refl)

  pub add_risk_objects-Effect :
      (k : Ident) (r : RiskObjectBatchRequest) → Effect env s (add_risk_objects env k r s).1
  add_risk_objects-Effect k r = untouched (
      (add_risk_objects-Keeps env (OnTasks Same) (task_allows env Same) k
          (λ o e. object_only env Same o) r).at
        s refl)

  pub verify_risk_object-Effect :
      (k i : Ident) (r : RiskObjectVerificationRequest)
      → Effect env s (verify_risk_object env k i r s).1
  verify_risk_object-Effect k i r = untouched (
      (verify_risk_object-Keeps env (OnTasks Same) (task_allows env Same) k i r
          (object_only env Same)).at
        s refl)

  pub freeze-Effect :
      (k : Ident) (r : CandidateObjectListFreezeRequest)
      → Effect env s (freeze_candidate_object_list env k r s).1
  freeze-Effect k r =
      untouched ((freeze-Keeps env (OnTasks Same) (task_allows env Same) k r).at s refl)
