-- ===== src/Response/Objects.antt =====
-- The risk objects of an event: `add_risk_objects` and `verify_risk_object` of
-- flood_system/response_workflow/service.py.
use flood_agent.Base.{
  zero, suc, ◌+◌, Bool, true, false, not, ◌||◌, Option, none, some, List, [], ◌∷◌, ◌++◌, ◌==◌, leb,
  if◌then◌else◌, Ident, Time, Text, text_eq, filter_by, with_default,
}
use flood_agent.Response.Enums.{ObjectVerificationStatus, pending}
use flood_agent.Response.Requests.{
  RegistryStatus, registry_active, RiskObjectInput, RiskObjectBatchRequest,
  RiskObjectVerificationRequest,
}
use flood_agent.Response.Records.{
  EventRiskObject, ObjectChange, candidate_added, candidate_updated, candidate_duplicate_merged,
  candidate_decided,
}
use flood_agent.Response.Entry.{
  risk_object, candidate_change, StateNote, no_state, score_note, score_status_note,
  verification_note, object_detail, note_detail,
}
use flood_agent.Response.Store.{Env, find_object}
use flood_agent.Response.Store.Tables.{text_lt}
use flood_agent.Response.Exec.{
  bad_decision, object_not_found, registry_inactive, unknown_canonical, M, pure, gets, require,
  or_raise, now, save_object, ◌>>=◌, ◌>>◌,
}
use flood_agent.Response.Guards.{require_role, get_event, edit_roles}
use flood_agent.Response.Alerts.{save_risk_object_version}
use flood_agent.Response.Timeline.{record_entry}

unfoldable pub is_active : RegistryStatus → Bool
is_active registry_active = true
is_active _ = false

unfoldable pub is_pending : ObjectVerificationStatus → Bool
is_pending pending = true
is_pending _ = false

-- `registry_valid_until is not None and registry_valid_until <= now`
abbrev pub has_ended : Option Time → Time → Bool
has_ended none moment = false
has_ended (some d) moment = leb d moment

-- The record has ended; the clock is read only where it has an end.
abbrev pub ended_now : Env → Option Time → M Bool
ended_now env none = pure false
ended_now env (some d) = now env >>= λ moment. pure (leb d moment)

-- The test of the registry record; the clock is read only where the record is active.
abbrev pub registry_ended : Env → EventRiskObject → Bool → M Bool
registry_ended env item true = ended_now env item.registry_valid_until
registry_ended env item false = pure true

-- `verify_risk_object` from the test of the registry record on.
unfoldable pub settle_object :
    Env → Ident → Ident → RiskObjectVerificationRequest → EventRiskObject → M EventRiskObject
settle_object env event_id object_id request old = do
  ended ← registry_ended env old (is_active old.registry_status)
  require (not ended) registry_inactive
  verified ← now env
  updated ← now env
  let item = record old {
    verification_status = request.decision;
    verified_by = some request.operator_id;
    verified_at = some verified;
    verification_note = request.note;
    stale = false;
    version = old.version + 1;
    updated_at = some updated;
  }
  save_object item
  save_risk_object_version env item (candidate_decided request.decision) request.operator_id
      request.terminal_id
  record_entry env (record {
    event_id = event_id;
    task_id = none;
    object_id = some object_id;
    entry_type = risk_object;
    action = candidate_change (candidate_decided request.decision);
    actor_id = request.operator_id;
    actor_role = request.operator_role;
    terminal_id = request.terminal_id;
    before_state = verification_note old.verification_status;
    after_state = verification_note item.verification_status;
    detail = note_detail request.note;
  })
  pure item

unfoldable pub verify_risk_object :
    Env → Ident → Ident → RiskObjectVerificationRequest → M EventRiskObject
verify_risk_object env event_id object_id request = do
  require_role request.operator_role edit_roles
  get_event event_id true
  require (not (is_pending request.decision)) bad_decision
  found ← gets (λ s. find_object event_id object_id s.objects)
  old ← or_raise found object_not_found
  settle_object env event_id object_id request old

-- `value or other`
abbrev pub or_ident : Option Ident → Ident → Ident
or_ident none other = other
or_ident (some a) other = if a == 0 then other else a

abbrev insert_text : Text → List Text → List Text
insert_text x [] = x ∷ []
insert_text x (y ∷ ys) =
    if text_eq x y then y ∷ ys else (if text_lt x y then x ∷ y ∷ ys else y ∷ insert_text x ys)

-- `sorted(set(texts))`
abbrev pub sorted_set : List Text → List Text
sorted_set [] = []
sorted_set (x ∷ xs) = insert_text x (sorted_set xs)

-- `list(dict.fromkeys(names))`
abbrev pub distinct : List Ident → List Ident
distinct [] = []
distinct (x ∷ xs) = x ∷ filter_by (λ y. not (y == x)) (distinct xs)

-- `RiskObjectInput(**merged)`: the canonical object, with the names and sources of its duplicate.
abbrev pub merged_input : Env → EventRiskObject → RiskObjectInput → RiskObjectInput
merged_input env canonical payload = record canonical.input {
  canonical_object_id = some (or_ident canonical.canonical_object_id canonical.object_id);
  aliases =
      sorted_set
        (canonical.aliases ++ payload.aliases ++ payload.name ∷ env.text_of payload.object_id ∷ []);
  source_refs = distinct (canonical.source_refs ++ payload.source_refs);
  duplicate_of = none;
}

-- What is stored for an element of the batch, and the identifier of the duplicate that it was.
abbrev Resolved : Type 0
Resolved = RiskObjectInput × Option Ident

-- A duplicate is replaced by the object that it duplicates.
abbrev pub resolve : Env → Ident → RiskObjectInput → Ident → M Resolved
resolve env event_id payload zero = pure (payload, none)
resolve env event_id payload (suc k) = do
  found ← gets (λ s. find_object event_id (suc k) s.objects)
  canonical ← or_raise found unknown_canonical
  pure (merged_input env canonical payload, some payload.object_id)

abbrev pub resolve_duplicate : Env → Ident → RiskObjectInput → M Resolved
resolve_duplicate env event_id payload =
    resolve env event_id payload (with_default payload.duplicate_of 0)

abbrev kept_status : Option EventRiskObject → ObjectVerificationStatus
kept_status none = pending
kept_status (some old) = if old.stale then pending else old.verification_status

-- The object that is stored, from the one that it replaces.
abbrev pub stored_object : Ident → RiskObjectInput → Time → Option EventRiskObject → EventRiskObject
stored_object event_id payload moment existing = record {
  input = record payload {
    canonical_object_id = some (or_ident payload.canonical_object_id payload.object_id);
  };
  event_id = event_id;
  verification_status = kept_status existing;
  verified_by = elim existing [ none ↦ none | some old ↦ old.verified_by ];
  verified_at = elim existing [ none ↦ none | some old ↦ old.verified_at ];
  verification_note = elim existing [ none ↦ [] | some old ↦ old.verification_note ];
  created_at = elim existing [ none ↦ moment | some old ↦ old.created_at ];
  stale = not (is_active payload.registry_status) || has_ended payload.registry_valid_until moment;
  candidate_run_id = none;
  version = elim existing [ none ↦ 1 | some old ↦ old.version + 1 ];
  updated_at = some moment;
}

-- The change type of the object.
abbrev pub change_of : Option Ident → Option EventRiskObject → ObjectChange
change_of duplicate existing = elim duplicate [
  | some k ↦
      if k == 0
      then elim existing [ some old ↦ candidate_updated | none ↦ candidate_added ]
      else candidate_duplicate_merged
  | none ↦ elim existing [ some old ↦ candidate_updated | none ↦ candidate_added ]
]

abbrev score_before : Option EventRiskObject → StateNote
score_before none = no_state
score_before (some old) = score_note old.risk_score

-- The loop body of `add_risk_objects`, once the element is resolved.
unfoldable pub store_candidate :
    Env → Ident → RiskObjectBatchRequest → RiskObjectInput → Option Ident → M EventRiskObject
store_candidate env event_id request payload duplicate = do
  existing ← gets (λ s. find_object event_id payload.object_id s.objects)
  moment ← now env
  let item = stored_object event_id payload moment existing
  save_object item
  save_risk_object_version env item (change_of duplicate existing) request.operator_id
      request.terminal_id
  record_entry env (record {
    event_id = event_id;
    task_id = none;
    object_id = some item.object_id;
    entry_type = risk_object;
    action = candidate_change (change_of duplicate existing);
    actor_id = request.operator_id;
    actor_role = request.operator_role;
    terminal_id = request.terminal_id;
    before_state = score_before existing;
    after_state = score_status_note item.risk_score item.verification_status;
    detail =
        object_detail item.risk_score item.source_refs item.canonical_object_id item.aliases
          duplicate item.registry_status item.registry_valid_until;
  })
  pure item

unfoldable pub add_candidate :
    Env → Ident → RiskObjectBatchRequest → RiskObjectInput → M EventRiskObject
add_candidate env event_id request payload = do
  resolved ← resolve_duplicate env event_id payload
  store_candidate env event_id request resolved.0 resolved.1

abbrev push : EventRiskObject → List EventRiskObject → M (List EventRiskObject)
push o os = pure (o ∷ os)

-- The loop of `add_risk_objects`.
unfoldable pub add_candidates :
    Env → Ident → RiskObjectBatchRequest → List RiskObjectInput → M (List EventRiskObject)
add_candidates env event_id request [] = pure []
add_candidates env event_id request (payload ∷ rest) =
    add_candidate env event_id request payload >>= λ item.
    add_candidates env event_id request rest >>= push item

unfoldable pub add_risk_objects : Env → Ident → RiskObjectBatchRequest → M (List EventRiskObject)
add_risk_objects env event_id request = do
  require_role request.operator_role edit_roles
  get_event event_id true
  add_candidates env event_id request request.objects
