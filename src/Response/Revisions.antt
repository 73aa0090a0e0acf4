-- ===== src/Response/Revisions.antt =====
-- What the creation of events, the revisions of alerts, the feature flags and the risk objects cannot
-- break: any condition on the store that the actions they are made of keep.
use flood_agent.Base.{
  ◌≡◌, zero, suc, Bool, true, false, Option, none, some, List, [], ◌∷◌, ℕ, Ident, Time,
}
use flood_agent.Response.Requests.{
  EventCreateRequest, AlertAppendRequest, FeatureFlagUpdateRequest,
  CandidateObjectListFreezeRequest, RiskObjectInput, RiskObjectBatchRequest,
  RiskObjectVerificationRequest,
}
use flood_agent.Response.Records.{
  ResponseEvent, EventRiskObject, AlertSnapshot, ObjectChange, FeatureFlagSetting,
  RiskObjectVersionSnapshot, CandidateObjectListVersion,
}
use flood_agent.Response.Store.{Store, Env, IdPrefix}
use flood_agent.Response.Exec.{
  now, new_id, save_event, save_alert, save_object, save_object_version, save_flag, save_list,
}
use flood_agent.Response.Exec.Keeps.{Keeps, keeps_rules, Keeps-bind, Keeps-pure}
use flood_agent.Response.Alerts.{
  create_event, save_risk_object_version, mark_stale, mark_unless, mark_all, revise_alert,
  append_after, append_alert,
}
use flood_agent.Response.Objects.{
  ended_now, registry_ended, settle_object, verify_risk_object, resolve, store_candidate,
  add_candidate, add_candidates, add_risk_objects,
}
use flood_agent.Response.Candidates.{
  source_run, take_object, Taken, take_objects, store_list, latest_or_new,
  freeze_candidate_object_list,
}
use flood_agent.Response.Flags.Update.{announce_flag, update_feature_flag}
use flood_agent.Response.Guards.{get_event}
use flood_agent.Response.Timeline.{EntryArgs, record_entry}

-- The actions that these methods are made of, other than the writes of risk objects, keep `P`.
pub record Allows (env : Env) (P : Store → Type 0) : Type 0 where
  pub clock : Keeps P (now env)
  pub uuid : (p : IdPrefix) → Keeps P (new_id env p)
  pub event : (e : ResponseEvent) → Keeps P (save_event e)
  pub alert : (a : AlertSnapshot) → Keeps P (save_alert a)
  pub object_version : (v : RiskObjectVersionSnapshot) → Keeps P (save_object_version v)
  pub flag : (f : FeatureFlagSetting) → Keeps P (save_flag env f)
  pub list : (l : CandidateObjectListVersion) → Keeps P (save_list l)
  pub entry : (a : EntryArgs) → Keeps P (record_entry env a)

module _ (env : Env) (P : Store → Type 0) (given : Allows env P) where
  clock-k : Keeps P (now env)
  clock-k = given.clock

  uuid-k : (p : IdPrefix) → Keeps P (new_id env p)
  uuid-k = given.uuid

  event-k : (e : ResponseEvent) → Keeps P (save_event e)
  event-k = given.event

  alert-k : (a : AlertSnapshot) → Keeps P (save_alert a)
  alert-k = given.alert

  object_version-k : (v : RiskObjectVersionSnapshot) → Keeps P (save_object_version v)
  object_version-k = given.object_version

  flag-k : (f : FeatureFlagSetting) → Keeps P (save_flag env f)
  flag-k = given.flag

  list-k : (l : CandidateObjectListVersion) → Keeps P (save_list l)
  list-k = given.list

  entry-k : (a : EntryArgs) → Keeps P (record_entry env a)
  entry-k = given.entry

ruleset allowed_rules =
    (keeps_rules, clock-k, uuid-k, event-k, alert-k, object_version-k, flag-k, list-k, entry-k)

module _ (env : Env) (P : Store → Type 0) (given : Allows env P) where
  get_event-Keeps : (k : Ident) (b : Bool) → Keeps P (get_event k b)
  unfolding get_event
  get_event-Keeps k b = search keeps_rules depth 12

  pub create_event-Keeps : (r : EventCreateRequest) → Keeps P (create_event env r)
  unfolding create_event
  create_event-Keeps r = search allowed_rules depth 30

  announce_flag-Keeps :
      (r : FeatureFlagUpdateRequest) (f : FeatureFlagSetting) (k : Option Ident)
      → Keeps P (announce_flag env r f k)
  announce_flag-Keeps r f none = search allowed_rules
  announce_flag-Keeps r f (some zero) = search allowed_rules
  announce_flag-Keeps r f (some (suc k)) = search allowed_rules

  pub update_feature_flag-Keeps :
      (r : FeatureFlagUpdateRequest) → Keeps P (update_feature_flag env r)
  unfolding update_feature_flag
  update_feature_flag-Keeps r = search (allowed_rules, announce_flag-Keeps) depth 24

  version-Keeps :
      (o : EventRiskObject) (c : ObjectChange) (i j : Ident)
      → Keeps P (save_risk_object_version env o c i j)
  unfolding save_risk_object_version
  version-Keeps o c i j = search allowed_rules depth 20

  module _ (marks : (o : EventRiskObject) → o.stale ≡ true → Keeps P (save_object o)) where
    mark_stale-Keeps : (r : AlertAppendRequest) (o : EventRiskObject) → Keeps P (mark_stale env r o)
    unfolding mark_stale
    mark_stale-Keeps r o = search (allowed_rules, version-Keeps) depth 20

    mark_unless-Keeps :
        (r : AlertAppendRequest) (o : EventRiskObject) (b : Bool) → Keeps P (mark_unless env r o b)
    mark_unless-Keeps r o true = Keeps-pure tt
    mark_unless-Keeps r o false = mark_stale-Keeps r o

    pub mark_all-Keeps :
        (r : AlertAppendRequest) (l : List EventRiskObject) → Keeps P (mark_all env r l)
    unfolding mark_all
    mark_all-Keeps r [] = Keeps-pure tt
    mark_all-Keeps r (o ∷ l) =
        Keeps-bind _ _ (mark_unless-Keeps r o o.stale) λ _. mark_all-Keeps r l

    revise_alert-Keeps :
        (k : Ident) (r : AlertAppendRequest) (e : ResponseEvent) (n : ℕ)
        → Keeps P (revise_alert env k r e n)
    unfolding revise_alert
    revise_alert-Keeps k r e n = search (allowed_rules, mark_all-Keeps) depth 30

    append_after-Keeps :
        (k : Ident) (r : AlertAppendRequest) (e : ResponseEvent) (n : ℕ) (o : Option AlertSnapshot)
        → Keeps P (append_after env k r e n o)
    append_after-Keeps k r e n none = revise_alert-Keeps k r e _
    append_after-Keeps k r e n (some a) = search (allowed_rules, revise_alert-Keeps) depth 12

    pub append_alert-Keeps : (k : Ident) (r : AlertAppendRequest) → Keeps P (append_alert env k r)
    unfolding append_alert
    append_alert-Keeps k r = search (allowed_rules, get_event-Keeps, append_after-Keeps) depth 20

  ended_now-Keeps : (o : Option Time) → Keeps P (ended_now env o)
  ended_now-Keeps none = search allowed_rules
  ended_now-Keeps (some d) = search allowed_rules depth 12

  registry_ended-Keeps : (o : EventRiskObject) (b : Bool) → Keeps P (registry_ended env o b)
  registry_ended-Keeps o true = ended_now-Keeps o.registry_valid_until
  registry_ended-Keeps o false = search allowed_rules

  -- The writes of the risk object that is verified, with other fields but the same keys.
  pub settle_object-Keeps :
      (k i : Ident) (r : RiskObjectVerificationRequest) (o : EventRiskObject)
      → ((u : EventRiskObject)
          → u.event_id ≡ o.event_id
          → u.object_id ≡ o.object_id
          → Keeps P (save_object u))
      → Keeps P (settle_object env k i r o)
  unfolding settle_object
  settle_object-Keeps k i r o saves =
      search (allowed_rules, registry_ended-Keeps, version-Keeps) depth 30

  module _ (k : Ident)
      (saves : (o : EventRiskObject) → o.event_id ≡ k → Keeps P (save_object o)) where
    resolve-Keeps : (p : RiskObjectInput) (i : Ident) → Keeps P (resolve env k p i)
    resolve-Keeps p zero = search allowed_rules
    resolve-Keeps p (suc i) = search allowed_rules depth 12

    store_candidate-Keeps :
        (r : RiskObjectBatchRequest) (p : RiskObjectInput) (d : Option Ident)
        → Keeps P (store_candidate env k r p d)
    unfolding store_candidate
    store_candidate-Keeps r p d = search (allowed_rules, version-Keeps) depth 30

    add_candidate-Keeps :
        (r : RiskObjectBatchRequest) (p : RiskObjectInput) → Keeps P (add_candidate env k r p)
    unfolding add_candidate
    add_candidate-Keeps r p = search (allowed_rules, resolve-Keeps, store_candidate-Keeps) depth 12

    add_candidates-Keeps :
        (r : RiskObjectBatchRequest) (l : List RiskObjectInput) → Keeps P (add_candidates env k r l)
    unfolding add_candidates
    add_candidates-Keeps r [] = Keeps-pure _
    add_candidates-Keeps r (p ∷ l) =
        Keeps-bind _ _ (add_candidate-Keeps r p)
          λ x. Keeps-bind _ _ (add_candidates-Keeps r l) λ xs. Keeps-pure _

    pub add_risk_objects-Keeps : (r : RiskObjectBatchRequest) → Keeps P (add_risk_objects env k r)
    unfolding add_risk_objects
    add_risk_objects-Keeps r =
        search (allowed_rules, get_event-Keeps, add_candidates-Keeps) depth 20

  pub verify_risk_object-Keeps :
      (k i : Ident) (r : RiskObjectVerificationRequest)
      → ((o : EventRiskObject) → Keeps P (save_object o))
      → Keeps P (verify_risk_object env k i r)
  unfolding verify_risk_object
  verify_risk_object-Keeps k i r saves =
      let settled : (o : EventRiskObject) → Keeps P (settle_object env k i r o) =
        λ o. settle_object-Keeps k i r o λ u e f. saves u in
      search (allowed_rules, get_event-Keeps, settled) depth 20

  source_run-Keeps : (k : Ident) (a : AlertSnapshot) (i : Ident) → Keeps P (source_run k a i)
  source_run-Keeps k a zero = search allowed_rules
  source_run-Keeps k a (suc n) = search allowed_rules depth 16

  take_object-Keeps : (k : Ident) (a : AlertSnapshot) (i : Ident) → Keeps P (take_object k a i)
  unfolding take_object
  take_object-Keeps k a i = search (allowed_rules, source_run-Keeps) depth 20

  take_objects-Keeps :
      (k : Ident) (a : AlertSnapshot) (ids : List Ident) → Keeps P (take_objects k a ids)
  unfolding take_objects
  take_objects-Keeps k a [] = Keeps-pure _
  take_objects-Keeps k a (i ∷ ids) =
      Keeps-bind _ _ (take_object-Keeps k a i)
        λ x. Keeps-bind _ _ (take_objects-Keeps k a ids) λ xs. Keeps-pure _

  latest_or_new-Keeps :
      (k : Ident) (r : CandidateObjectListFreezeRequest) (e : ResponseEvent) (a : AlertSnapshot)
      (l : Option CandidateObjectListVersion) (ts : List Taken)
      → Keeps P (latest_or_new env k r e a l ts)
  unfolding store_list
  latest_or_new-Keeps k r e a none ts = search allowed_rules depth 20
  latest_or_new-Keeps k r e a (some l) ts = search allowed_rules depth 20

  pub freeze-Keeps :
      (k : Ident) (r : CandidateObjectListFreezeRequest)
      → Keeps P (freeze_candidate_object_list env k r)
  unfolding freeze_candidate_object_list
  freeze-Keeps k r =
      search (allowed_rules, get_event-Keeps, take_objects-Keeps, latest_or_new-Keeps) depth 40
