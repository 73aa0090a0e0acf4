-- ===== src/Response/Service/Restored.antt =====
-- Verifying a risk object lifts the block on drafting tasks for it.
use mathlib.Core.Path.{subst, sym}
use flood_agent.Base.{
  ◌≡◌, ◌≢◌, ap, ◌∙◌, arith, true, false, none, some, [], Ident, find-holds, Option-cases, inl, inr,
}
use flood_agent.Response.Enums.{confirmed}
use flood_agent.Response.Requests.{TaskCreateRequest, RiskObjectVerificationRequest}
use flood_agent.Response.Records.{EventRiskObject, ResponseEvent}
use flood_agent.Response.Store.{Env, Store, tsk, find_object, find_event, find_task, put_task}
use flood_agent.Response.Store.Tables.{
  has_key, put_object, find_object-put_object, list_object_lists,
}
use flood_agent.Response.Store.Laws.{find_task-put_task}
use flood_agent.Response.Exec.{ok, ◌>>=◌}
use flood_agent.Response.Guards.{get_event, edit_roles, is_closed, is_truthy}
use flood_agent.Response.Timeline.{record_entry}
use flood_agent.Response.Rules.{is_confirmed}
use flood_agent.Response.Drafting.{save_task_version_snapshot}
use flood_agent.Response.Alerts.{save_risk_object_version}
use flood_agent.Response.Objects.{settle_object, verify_risk_object, is_active}
use flood_agent.Response.Creation.{
  create_task, draft_task, is_ready, resolve_candidate_object_list, store_draft, drafted_task,
}

-- What a verification that returns `o` leaves.
record Verified (k i : Ident) (r : RiskObjectVerificationRequest) (s s' : Store)
    (o : EventRiskObject) : Type 0 where
  found : find_object k i s'.objects ≡ some o
  fresh : o.stale ≡ false
  decided : o.verification_status ≡ r.decision
  events : s'.events ≡ s.events
  lists : s'.object_lists ≡ s.object_lists

module _ (env : Env) (k i : Ident) (r : RiskObjectVerificationRequest) (s : Store) where
  settle_object_cases :
      (old o : EventRiskObject)
      → (settle_object env k i r old s).0 ≡ ok o
      → let s' = (settle_object env k i r old s).1 in
        (s'.objects ≡ put_object o s.objects)
        × ((o.event_id ≡ old.event_id) × (o.object_id ≡ old.object_id))
        × ((o.stale ≡ false) × (o.verification_status ≡ r.decision))
        × ((s'.events ≡ s.events) × (s'.object_lists ≡ s.object_lists))
  unfolding settle_object save_risk_object_version record_entry ◌>>=◌ is_active
  settle_object_cases old o h = ground arith

  verify_risk_object_known :
      (o old : EventRiskObject)
      → (verify_risk_object env k i r s).0 ≡ ok o
      → find_object k i s.objects ≡ some old
      → (verify_risk_object env k i r s) ≡ (settle_object env k i r old s)
  unfolding verify_risk_object get_event ◌>>=◌
  verify_risk_object_known o old h found = ground arith

  verify_risk_object_missing :
      (o : EventRiskObject)
      → (verify_risk_object env k i r s).0 ≡ ok o
      → find_object k i s.objects ≢ none
  unfolding verify_risk_object get_event ◌>>=◌
  verify_risk_object_missing o h = ground arith

  event_there :
      (o : EventRiskObject)
      → (verify_risk_object env k i r s).0 ≡ ok o
      → find_event k s.events ≢ none
  unfolding verify_risk_object get_event ◌>>=◌
  event_there o h = ground arith

  event_open :
      (o : EventRiskObject) (e : ResponseEvent)
      → (verify_risk_object env k i r s).0 ≡ ok o
      → find_event k s.events ≡ some e
      → is_closed e.status ≡ false
  unfolding verify_risk_object get_event ◌>>=◌
  event_open o e h there = ground arith

  verify_risk_object-open :
      (o : EventRiskObject)
      → (verify_risk_object env k i r s).0 ≡ ok o
      → (e : ResponseEvent) × (find_event k s.events ≡ some e) × (is_closed e.status ≡ false)
  verify_risk_object-open o h = elim (Option-cases (find_event k s.events)) [
    | inl missing ↦ absurd (event_there o h missing)
    | inr (e, there) ↦ (e, there, event_open o e h there)
  ]

  verify_risk_object-Verified :
      (o : EventRiskObject)
      → (verify_risk_object env k i r s).0 ≡ ok o
      → Verified k i r s (verify_risk_object env k i r s).1 o
  verify_risk_object-Verified o h = elim (Option-cases (find_object k i s.objects)) [
    | inl missing ↦ absurd (verify_risk_object_missing o h missing)
    | inr (old, there) ↦
        let e = verify_risk_object_known o old h there in
        let keys = find-holds (has_key k i) s.objects old there in
        let (written, same, decided, rest) =
          settle_object_cases old o (sym (ap (λ x. x.0) e) ∙ h) in
        subst (λ t. Verified k i r s t o) (sym (ap (λ x. x.1) e))
          (record {
            found = ground (arith, written, same, find_object-put_object k i o s.objects);
            fresh = decided.0;
            decided = decided.1;
            events = rest.0;
            lists = rest.1;
          })
  ]

create_task_granted :
    (env : Env) (k : Ident) (q : TaskCreateRequest) (s : Store) (e : ResponseEvent)
    (o : EventRiskObject)
    → edit_roles q.operator_role ≡ true
    → find_event k s.events ≡ some e
    → is_closed e.status ≡ false
    → q.idempotency_key ≡ none
    → find_object k q.object_id s.objects ≡ some o
    → o.stale ≡ false
    → o.verification_status ≡ confirmed
    → list_object_lists k s.object_lists ≡ []
    → let d = drafted_task k q (env.uuid tsk s.minted) (env.clock s.ticks) in
      ((create_task env k q s).0 ≡ ok d) × ((create_task env k q s).1.tasks ≡ put_task d s.tasks)
unfolding create_task draft_task get_event is_ready is_truthy is_confirmed
    resolve_candidate_object_list store_draft save_task_version_snapshot record_entry ◌>>=◌
create_task_granted env k q s e o role there opened plain found fresh status none_frozen =
    ground arith

-- Verification lifts the block: after a verification that confirms a risk object and returns, a
-- request of an editor without an idempotency key to draft a task for that object returns the
-- draft, which is then stored under its key, where no candidate list of the event has been frozen.
pub verify_risk_object-lifts :
    (env : Env) (k : Ident) (r : RiskObjectVerificationRequest) (q : TaskCreateRequest) (s : Store)
    (o : EventRiskObject)
    → (verify_risk_object env k q.object_id r s).0 ≡ ok o
    → r.decision ≡ confirmed
    → edit_roles q.operator_role ≡ true
    → q.idempotency_key ≡ none
    → list_object_lists k s.object_lists ≡ []
    → let s' = (verify_risk_object env k q.object_id r s).1 in
      let d = drafted_task k q (env.uuid tsk s'.minted) (env.clock s'.ticks) in
      ((create_task env k q s').0 ≡ ok d)
      × (find_task d.task_id (create_task env k q s').1.tasks ≡ some d)
verify_risk_object-lifts env k r q s o h decision role plain none_frozen =
    let s' = (verify_risk_object env k q.object_id r s).1 in
    let d = drafted_task k q (env.uuid tsk s'.minted) (env.clock s'.ticks) in
    let v = verify_risk_object-Verified env k q.object_id r s o h in
    let (e, there, opened) = verify_risk_object-open env k q.object_id r s o h in
    let (result, tasks) =
      create_task_granted env k q s' e o role (ap (find_event k) v.events ∙ there) opened plain
        v.found v.fresh (v.decided ∙ decision) (ap (list_object_lists k) v.lists ∙ none_frozen) in
    (
      result,
      ap (find_task d.task_id) tasks ∙ ground (arith, find_task-put_task d.task_id d s'.tasks),
    )
