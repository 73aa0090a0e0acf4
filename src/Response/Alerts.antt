-- ===== src/Response/Alerts.antt =====
-- The creation of an event and the revisions of its alert: `create_event`, `append_alert` and
-- `_save_risk_object_version` of flood_system/response_workflow/service.py. The dashboard that
-- `create_event` returns is a view of the tables: the event stands for it.
use flood_agent.Base.{
  ℕ, ◌+◌, ◌-◌, Bool, true, false, ◌&&◌, Option, none, some, List, [], ◌∷◌, ◌==◌, Ident, Time, last?,
  length,
}
use flood_agent.Response.Enums.{active}
use flood_agent.Response.Requests.{AlertInput, EventCreateRequest, AlertAppendRequest}
use flood_agent.Response.Records.{
  ResponseEvent, AlertSnapshot, EventRiskObject, ObjectChange, warning_revision_marked_stale,
}
use flood_agent.Response.Entry.{
  event, alert, event_created, alert_version_appended, no_state, event_alert_note, alert_note,
  alert_detail,
}
use flood_agent.Response.Store.{Env, alt, objver, flood}
use flood_agent.Response.Store.Tables.{list_alerts, list_objects}
use flood_agent.Response.Exec.{
  M, pure, gets, choose, now, new_id, save_event, save_alert, save_object, save_object_version,
  ◌>>=◌, ◌>>◌,
}
use flood_agent.Response.Guards.{require_role, get_event, edit_roles}
use flood_agent.Response.Timeline.{record_entry}

-- `AlertSnapshot(**alert, …)`; its data version is a constant, and is left out.
abbrev pub snapshot_of : Env → AlertInput → Ident → Ident → ℕ → Time → AlertSnapshot
snapshot_of env input snapshot_id event_id version moment = record {
  alert = input;
  snapshot_id = snapshot_id;
  event_id = event_id;
  version = version;
  created_at = moment;
  raw_payload_hash = env.content_digest input.raw_content;
}

unfoldable pub create_event : Env → EventCreateRequest → M ResponseEvent
create_event env request = do
  require_role request.operator_role edit_roles
  moment ← now env
  random ← new_id env flood
  let created : ResponseEvent = record {
    event_id = env.event_tag moment random;
    title = request.title;
    area_id = request.area_id;
    status = active;
    current_alert_version = 1;
    created_at = moment;
    updated_at = moment;
    closed_at = none;
    closed_by = none;
    source_type = request.alert.source_type;
    is_simulated = request.alert.is_simulated;
  }
  snapshot_id ← new_id env alt
  save_event created
  save_alert (snapshot_of env request.alert snapshot_id created.event_id 1 moment)
  record_entry env (record {
    event_id = created.event_id;
    task_id = none;
    object_id = none;
    entry_type = event;
    action = event_created;
    actor_id = request.operator_id;
    actor_role = request.operator_role;
    terminal_id = request.terminal_id;
    before_state = no_state;
    after_state = event_alert_note active 1;
    detail = alert_detail request.alert.alert_id 1;
  })
  pure created

-- `_save_risk_object_version`
unfoldable pub save_risk_object_version :
    Env → EventRiskObject → ObjectChange → Ident → Ident → M (Unit {0})
save_risk_object_version env item change_type operator_id terminal_id = do
  snapshot_id ← new_id env objver
  moment ← now env
  save_object_version (record {
    snapshot_id = snapshot_id;
    event_id = item.event_id;
    object_id = item.object_id;
    version = item.version;
    object = item;
    change_type = change_type;
    changed_by = operator_id;
    terminal_id = terminal_id;
    created_at = moment;
  })

-- The body of the loop of `append_alert` for an object that is not stale yet.
unfoldable pub mark_stale : Env → AlertAppendRequest → EventRiskObject → M (Unit {0})
mark_stale env request item = do
  moment ← now env
  let marked = record item { stale = true; version = item.version + 1; updated_at = some moment }
  save_object marked
  save_risk_object_version env marked warning_revision_marked_stale request.operator_id
      request.terminal_id

abbrev pub mark_unless : Env → AlertAppendRequest → EventRiskObject → Bool → M (Unit {0})
mark_unless env request item true = pure tt
mark_unless env request item false = mark_stale env request item

-- The loop of `append_alert` over the risk objects of the event.
unfoldable pub mark_all : Env → AlertAppendRequest → List EventRiskObject → M (Unit {0})
mark_all env request [] = pure tt
mark_all env request (item ∷ items) =
    mark_unless env request item item.stale >>= λ _. mark_all env request items

-- The last snapshot is of this alert and text already.
abbrev pub repeats : AlertAppendRequest → AlertSnapshot → Bool
repeats request last =
    last.alert_id == request.alert.alert_id && last.raw_content == request.alert.raw_content

-- `append_alert` for a version that is new.
unfoldable pub revise_alert : Env → Ident → AlertAppendRequest → ResponseEvent → ℕ → M AlertSnapshot
revise_alert env event_id request old version = do
  snapshot_id ← new_id env alt
  moment ← now env
  let snapshot = snapshot_of env request.alert snapshot_id event_id version moment
  save_alert snapshot
  updated ← now env
  save_event (record old { current_alert_version = version; updated_at = updated })
  items ← gets (λ s. list_objects event_id s.objects)
  mark_all env request items
  record_entry env (record {
    event_id = event_id;
    task_id = none;
    object_id = none;
    entry_type = alert;
    action = alert_version_appended;
    actor_id = request.operator_id;
    actor_role = request.operator_role;
    terminal_id = request.terminal_id;
    before_state = alert_note (version - 1);
    after_state = alert_note version;
    detail = alert_detail request.alert.alert_id version;
  })
  pure snapshot

-- A repeated alert gives the last snapshot, any other a new one.
abbrev pub append_after :
    Env → Ident → AlertAppendRequest → ResponseEvent → ℕ → Option AlertSnapshot → M AlertSnapshot
append_after env event_id request old n none = revise_alert env event_id request old (n + 1)
append_after env event_id request old n (some last) =
    choose (repeats request last) (pure last) (revise_alert env event_id request old (n + 1))

unfoldable pub append_alert : Env → Ident → AlertAppendRequest → M AlertSnapshot
append_alert env event_id request = do
  require_role request.operator_role edit_roles
  old ← get_event event_id true
  snapshots ← gets (λ s. list_alerts event_id s.alerts)
  append_after env event_id request old (length snapshots) (last? snapshots)
