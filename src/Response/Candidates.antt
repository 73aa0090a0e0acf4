-- ===== src/Response/Candidates.antt =====
-- Freezing a list of confirmed objects: `freeze_candidate_object_list` of
-- flood_system/response_workflow/service.py.
pub mod Sound
use flood_agent.Base.{
  ℕ, zero, suc, ◌+◌, Bool, true, false, not, ◌&&◌, Option, none, some, List, [], ◌∷◌, ◌++◌, ◌==◌,
  if◌then◌else◌, Ident, Time, find, filter_by, last?, length, is_empty, all, map, is_some,
  with_default,
}
use flood_agent.Response.Enums.{OperatorRole, reviewer, commander}
use flood_agent.Response.Requests.{CandidateObjectListFreezeRequest}
use flood_agent.Response.Records.{
  ResponseEvent, EventRiskObject, AlertSnapshot, CandidateObjectListVersion,
  CandidateObjectReference, CandidateRunRecord, RunStatus, completed_run, ListFacts,
}
use flood_agent.Response.Entry.{
  candidate_object_list, candidate_object_list_frozen, no_state, list_note, list_detail,
}
use flood_agent.Response.Store.{Env, find_object}
use flood_agent.Response.Store.Tables.{list_alerts, list_objects, list_object_lists, text_lt}
use flood_agent.Response.Exec.{
  version_conflict, object_not_found, object_not_confirmed, no_alert, duplicate_ids, no_candidates,
  run_missing, stale_run, outdated_run, M, pure, gets, choose, require, or_raise, now, save_list,
  ◌>>=◌, ◌>>◌,
}
use flood_agent.Response.Guards.{require_role, get_event}
use flood_agent.Response.Objects.{distinct}
use flood_agent.Response.Creation.{candidate_object_verification_hash, is_ready}
use flood_agent.Response.Timeline.{record_entry}

unfoldable pub freezing_roles : OperatorRole → Bool
freezing_roles reviewer = true
freezing_roles commander = true
freezing_roles _ = false

-- The version that the request expects is that of the latest list.
abbrev expects_latest : Option ℕ → Option CandidateObjectListVersion → Bool
expects_latest none latest = true
expects_latest (some v) none = false
expects_latest (some v) (some l) = v == l.version

abbrev insert_name : Env → Ident → List Ident → List Ident
insert_name env x [] = x ∷ []
insert_name env x (y ∷ ys) =
    if text_lt (env.text_of y) (env.text_of x) then y ∷ insert_name env x ys else x ∷ y ∷ ys

-- `sorted(names)`
abbrev pub sorted_names : Env → List Ident → List Ident
sorted_names env [] = []
sorted_names env (x ∷ xs) = insert_name env x (sorted_names env xs)

-- `selected_ids`
abbrev pub selected_ids : Env → List Ident → List EventRiskObject → List Ident
selected_ids env [] objects =
    sorted_names env (map (λ o. o.object_id) (filter_by (λ o. is_ready (some o)) objects))
selected_ids env (i ∷ ids) objects = i ∷ ids

unfoldable pub is_completed : RunStatus → Bool
is_completed completed_run = true
is_completed _ = false

-- The runs that an object was found by: the one of its identifier, if it has one.
abbrev pub source_run : Ident → AlertSnapshot → Ident → M (List Ident)
source_run event_id alert zero = pure []
source_run event_id alert (suc n) = do
  found ← gets (λ s. find (λ x. x.event_id == event_id && x.run_id == suc n) s.candidate_runs)
  run ← or_raise found run_missing
  require (is_completed run.status && not (is_some run.stale_at)) stale_run
  require (run.alert_snapshot_id == alert.snapshot_id) outdated_run
  pure (run.run_id ∷ [])

-- An object of the list, and its runs.
abbrev pub Taken : Type 0
Taken = EventRiskObject × List Ident

-- The body of the loop over the sorted identifiers.
unfoldable pub take_object : Ident → AlertSnapshot → Ident → M Taken
take_object event_id alert object_id = do
  found ← gets (λ s. find_object event_id object_id s.objects)
  item ← or_raise found object_not_found
  require (is_ready (some item)) object_not_confirmed
  sources ← source_run event_id alert (with_default item.candidate_run_id 0)
  pure (item, sources)

abbrev push : Taken → List Taken → M (List Taken)
push x xs = pure (x ∷ xs)

unfoldable pub take_objects : Ident → AlertSnapshot → List Ident → M (List Taken)
take_objects event_id alert [] = pure []
take_objects event_id alert (i ∷ ids) =
    take_object event_id alert i >>= λ x. take_objects event_id alert ids >>= push x

abbrev pub reference_of : Env → EventRiskObject → CandidateObjectReference
reference_of env item = record {
  object_id = item.object_id;
  object_version = item.version;
  candidate_run_id = item.candidate_run_id;
  data_version = item.data_version;
  verification_hash = candidate_object_verification_hash env item;
}

abbrev all_sources : List Taken → List Ident
all_sources [] = []
all_sources (x ∷ xs) = x.1 ++ all_sources xs

-- `references`
abbrev pub references_of : Env → List Taken → List CandidateObjectReference
references_of env taken = map (λ x. reference_of env x.0) taken

-- `sorted(source_run_ids)` of a set
abbrev pub sources_of : Env → List Taken → List Ident
sources_of env taken = sorted_names env (distinct (all_sources taken))

abbrev next_list_version : Option CandidateObjectListVersion → ℕ
next_list_version none = 1
next_list_version (some l) = l.version + 1

-- The list has the content of the latest one.
abbrev same_content : Option CandidateObjectListVersion → Ident → Bool
same_content none h = false
same_content (some l) h = l.content_hash == h

abbrev pub content_of : Env → Ident → AlertSnapshot → List Taken → Ident
content_of env event_id alert taken = env.list_digest (record {
  event_id = event_id;
  alert_snapshot_id = alert.snapshot_id;
  source_run_ids = sources_of env taken;
  objects = references_of env taken;
})

-- The list that is new.
unfoldable pub store_list :
    Env
    → Ident
    → CandidateObjectListFreezeRequest
    → ResponseEvent
    → AlertSnapshot
    → Option CandidateObjectListVersion
    → List Taken
    → M CandidateObjectListVersion
store_list env event_id request event alert latest taken = do
  moment ← now env
  let frozen : CandidateObjectListVersion = record {
    list_id = env.list_tag event_id;
    event_id = event_id;
    version = next_list_version latest;
    alert_snapshot_id = alert.snapshot_id;
    source_run_ids = sources_of env taken;
    objects = references_of env taken;
    content_hash = content_of env event_id alert taken;
    note = request.note;
    is_simulated = event.is_simulated && all (λ x. x.0.is_simulated) taken;
    frozen_by = request.operator_id;
    frozen_role = request.operator_role;
    terminal_id = request.terminal_id;
    frozen_at = moment;
  }
  save_list frozen
  record_entry env (record {
    event_id = event_id;
    task_id = none;
    object_id = none;
    entry_type = candidate_object_list;
    action = candidate_object_list_frozen;
    actor_id = request.operator_id;
    actor_role = request.operator_role;
    terminal_id = request.terminal_id;
    before_state = no_state;
    after_state = list_note frozen.list_id frozen.version;
    detail =
        list_detail frozen.content_hash (map (λ x. x.object_id) frozen.objects)
          frozen.source_run_ids frozen.alert_snapshot_id request.note;
  })
  pure frozen

-- The latest list stands for one of the same content.
abbrev pub latest_or_new :
    Env
    → Ident
    → CandidateObjectListFreezeRequest
    → ResponseEvent
    → AlertSnapshot
    → Option CandidateObjectListVersion
    → List Taken
    → M CandidateObjectListVersion
latest_or_new env event_id request event alert none taken =
    store_list env event_id request event alert none taken
latest_or_new env event_id request event alert (some l) taken =
    choose (same_content (some l) (content_of env event_id alert taken)) (pure l)
      (store_list env event_id request event alert (some l) taken)

unfoldable pub freeze_candidate_object_list :
    Env → Ident → CandidateObjectListFreezeRequest → M CandidateObjectListVersion
freeze_candidate_object_list env event_id request = do
  require_role request.operator_role freezing_roles
  event ← get_event event_id true
  alerts ← gets (λ s. list_alerts event_id s.alerts)
  alert ← or_raise (last? alerts) no_alert
  lists ← gets (λ s. list_object_lists event_id s.object_lists)
  require (expects_latest request.expected_version (last? lists)) version_conflict
  require (length (distinct request.object_ids) == length request.object_ids) duplicate_ids
  objects ← gets (λ s. list_objects event_id s.objects)
  let ids = selected_ids env request.object_ids objects
  require (not (is_empty ids)) no_candidates
  taken ← take_objects event_id alert (sorted_names env ids)
  latest_or_new env event_id request event alert (last? lists) taken
