-- ===== src/Response/Tests/Objects.antt =====
-- A revision of the alert of the event 1, and the calls that follow.
use flood_agent.Base.{◌≡◌, ◌≢◌, ◌⊎◌, refl, true, false, none, some, List, [], ◌∷◌, ◌++◌, All, last?}
use flood_agent.Response.Enums.{duty_officer, confirmed, active, reviewer_required, reviewer}
use flood_agent.Response.Task.{ResponseTask}
use flood_agent.Response.Rules.{is_confirmed}
use flood_agent.Response.Drafting.{save_task_version_snapshot}
use flood_agent.Response.Creation.{
  create_task, draft_task, resolve_candidate_object_list, store_draft, drafted_task, is_ready,
  is_snapshot,
}
use flood_agent.Response.Requests.{
  CandidateObjectListFreezeRequest, TaskCreateRequest, AlertInput, AlertAppendRequest,
  RiskObjectVerificationRequest, EventCreateRequest,
}
use flood_agent.Response.Records.{EventRiskObject, CandidateObjectListVersion}
use flood_agent.Response.Candidates.{
  freeze_candidate_object_list, freezing_roles, take_objects, take_object, store_list, reference_of,
}
use flood_agent.Response.Candidates.Sound.{IsBacked, freeze_candidate_object_list_sound}
use flood_agent.Response.Objects.{verify_risk_object, settle_object, is_active, is_pending}
use flood_agent.Response.Store.{Store, tsk, find_task}
use flood_agent.Response.Store.Tables.{list_alerts, list_object_lists}
use flood_agent.Response.Exec.{ok, ◌>>=◌}
use flood_agent.Response.Guards.{get_event, edit_roles, is_closed, is_truthy}
use flood_agent.Response.Timeline.{record_entry}
use flood_agent.Response.Alerts.{
  append_alert, revise_alert, mark_all, mark_stale, save_risk_object_version, snapshot_of,
}
use flood_agent.Response.Service.{Call, append, verify_object, create, serve_all}
use flood_agent.Response.Service.Stale.{IsStale}
use flood_agent.Response.Service.Restored.{verify_risk_object-lifts}
use flood_agent.Response.Service.Marked.{append_alert-stale}
use flood_agent.Response.Tests.{test_env, holding, object_in, act_as}

abbrev red_alert : AlertInput
red_alert = record {
  alert_id = 80;
  source_department = 81;
  disaster_type = 82;
  level = 83;
  issued_at = 90;
  valid_until = none;
  affected_area = 84;
  affected_geometry = none;
  raw_content = 85;
  source_type = 2;
  source_version = 86;
  is_simulated = true;
  lifecycle_status = 87;
}

abbrev red_revision : AlertAppendRequest
red_revision = record {
  alert = red_alert;
  operator_id = 32;
  operator_role = duty_officer;
  terminal_id = 9;
}

abbrev red_event : EventCreateRequest
red_event = record {
  title = 12;
  area_id = 13;
  alert = red_alert;
  operator_id = 32;
  operator_role = duty_officer;
  terminal_id = 9;
}

abbrev confirmation : RiskObjectVerificationRequest
confirmation = record {
  decision = confirmed;
  note = [];
  operator_id = 32;
  operator_role = duty_officer;
  terminal_id = 9;
}

abbrev quiet_store : Store
quiet_store = holding active []

-- Another object is verified, an event is created, and the alert is revised again.
abbrev other_calls : List Call
other_calls = verify_object 1 8 confirmation ∷ create red_event ∷ append 1 red_revision ∷ []

abbrev later_store : Store
later_store = serve_all test_env other_calls (append_alert test_env 1 red_revision quiet_store).1

abbrev new_draft : TaskCreateRequest
new_draft = record {
  object_id = 7;
  title = 0x61 ∷ [];
  action = 0x62 ∷ [];
  responsible_organization = 14;
  responsible_role = 15;
  cooperate_roles = [];
  deadline_at = 120;
  acknowledge_deadline_at = 90;
  start_deadline_at = some 100;
  verification_deadline_at = some 130;
  required_evidence = (0x70 ∷ []) ∷ [];
  plan_basis = record { document = 16; version = 17; clause = 18 } ∷ [];
  approval_policy = reviewer_required;
  escalation_rule = 19;
  dependencies = [];
  operator_id = 32;
  operator_role = duty_officer;
  terminal_id = 9;
  generated_by_ai = false;
  generation_version = none;
  grounding_summary = 0;
  evidence_role_coverage = [];
  source_evidence = [];
  validation_warnings = [];
  evidence_package_id = none;
  evidence_package_version = none;
  evidence_package_hash = none;
  candidate_object_list_id = none;
  candidate_object_list_version = none;
  candidate_object_list_hash = none;
  idempotency_key = none;
}

-- Before the revision, the draft is made.
drafted_before :
    (create_task test_env 1 new_draft quiet_store).0 ≡ ok (drafted_task 1 new_draft 1000 100)
unfolding create_task draft_task resolve_candidate_object_list store_draft
    save_task_version_snapshot record_entry get_event ◌>>=◌ edit_roles is_closed is_truthy is_ready
    is_confirmed
drafted_before = refl

append_alert-stale_example :
    (((append_alert test_env 1 red_revision quiet_store).1 ≡ quiet_store)
      × (last? (list_alerts 1 []) ≡ some (snapshot_of test_env red_alert 1000 1 1 100)))
    ⊎ (IsStale 1 7 later_store
        × ((t : ResponseTask) → (create_task test_env 1 new_draft later_store).0 ≢ ok t))
unfolding append_alert revise_alert mark_all mark_stale save_risk_object_version record_entry
    get_event ◌>>=◌ edit_roles is_closed
append_alert-stale_example =
    append_alert-stale test_env 1 red_revision quiet_store
      (snapshot_of test_env red_alert 1000 1 1 100) new_draft (object_in confirmed false)
      other_calls refl refl (refl, (refl, (refl, tt))) refl

-- The store in which the object is stale.
abbrev stale_store : Store
stale_store = record quiet_store { objects = object_in confirmed true ∷ [] }

-- The object that the confirmation leaves.
abbrev confirmed_again : EventRiskObject
confirmed_again = record (object_in confirmed false) {
  verified_at = some 100;
  version = 3;
  updated_at = some 101;
}

abbrev confirmed_store : Store
confirmed_store = (verify_risk_object test_env 1 7 confirmation stale_store).1

abbrev drafted_again : ResponseTask
drafted_again =
    drafted_task 1 new_draft (test_env.uuid tsk confirmed_store.minted)
      (test_env.clock confirmed_store.ticks)

verify_risk_object-lifts_example :
    ((create_task test_env 1 new_draft confirmed_store).0 ≡ ok drafted_again)
    × (find_task drafted_again.task_id (create_task test_env 1 new_draft confirmed_store).1.tasks
        ≡ some drafted_again)
unfolding verify_risk_object settle_object is_active is_pending save_risk_object_version
    record_entry get_event ◌>>=◌ edit_roles is_closed
verify_risk_object-lifts_example =
    verify_risk_object-lifts test_env 1 confirmation new_draft stale_store confirmed_again refl refl
      refl refl refl

abbrev alerted_store : Store
alerted_store = record quiet_store { alerts = snapshot_of test_env red_alert 90 1 1 10 ∷ [] }

abbrev freezing : CandidateObjectListFreezeRequest
freezing = record { base = act_as reviewer; object_ids = 7 ∷ [] }

abbrev frozen_list : CandidateObjectListVersion
frozen_list = record {
  list_id = 1;
  event_id = 1;
  version = 1;
  alert_snapshot_id = 90;
  source_run_ids = [];
  objects = reference_of test_env (object_in confirmed false) ∷ [];
  content_hash = 89;
  note = 0x61 ∷ 0x62 ∷ 0x63 ∷ 0x64 ∷ [];
  is_simulated = true;
  frozen_by = 32;
  frozen_role = reviewer;
  terminal_id = 9;
  frozen_at = 100;
}

abbrev frozen_store : Store
frozen_store = (freeze_candidate_object_list test_env 1 freezing alerted_store).1

freeze_candidate_object_list_sound_example :
    ((frozen_store ≡ alerted_store) × (last? (list_object_lists 1 []) ≡ some frozen_list))
    ⊎ ((frozen_store.object_lists ≡ [] ++ frozen_list ∷ [])
        × All (IsBacked test_env 1 alerted_store) frozen_list.objects
        × (is_snapshot (last? (list_alerts 1 alerted_store.alerts)) 90 ≡ true))
unfolding freeze_candidate_object_list freezing_roles take_objects take_object store_list is_ready
    is_confirmed record_entry get_event ◌>>=◌ is_closed
freeze_candidate_object_list_sound_example =
    freeze_candidate_object_list_sound test_env 1 freezing alerted_store frozen_list refl
