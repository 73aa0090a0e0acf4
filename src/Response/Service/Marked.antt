-- ===== src/Response/Service/Marked.antt =====
-- A revision of the alert of an event makes all of its risk objects stale.
use mathlib.Core.Path.{subst, sym}
use flood_agent.Base.{
  ◌+◌, ◌≡◌, ◌≢◌, ◌∙◌, ◌⊎◌, inl, inr, refl, arith, Bool, true, false, not, ◌&&◌, none, some, List,
  [], ◌∷◌, ◌++◌, ◌==◌, ℕ, Ident, any, All, filter_by, last?, length, Bool-cases, Option-cases,
  any-sort_on, any-find_of, find-filter_by, find-holds,
}
use flood_agent.Response.Task.{ResponseTask}
use flood_agent.Response.Creation.{create_task, draft_task, is_ready}
use flood_agent.Response.Requests.{TaskCreateRequest, AlertAppendRequest}
use flood_agent.Response.Records.{ResponseEvent, EventRiskObject, AlertSnapshot}
use flood_agent.Response.Store.{Env, Store, find_object, find_event, put_event, alt}
use flood_agent.Response.Store.Tables.{has_key, list_objects, list_alerts, find_object-put_object}
use flood_agent.Response.Exec.{ok, ◌>>=◌}
use flood_agent.Response.Guards.{get_event, is_truthy}
use flood_agent.Response.Timeline.{record_entry}
use flood_agent.Response.Alerts.{
  save_risk_object_version, mark_stale, mark_unless, mark_all, revise_alert, append_alert,
  snapshot_of,
}
use flood_agent.Response.Revisions.{mark_all-Keeps}
use flood_agent.Response.Ledger.Revisions.{LedgerLaw-Allows}
use flood_agent.Response.Service.{Call, serve_all}
use flood_agent.Response.Service.Stale.{
  IsStale, refreshes, stale_law, save_object-IsStale, serve_all-IsStale,
}

-- The object is in the table, and stale.
abbrev Stored : Ident → Ident → List EventRiskObject → Type 0
Stored k i l = (o : EventRiskObject) × (find_object k i l ≡ some o) × (o.stale ≡ true)

-- An object that the loop has to mark.
abbrev unmarked : Ident → Ident → EventRiskObject → Bool
unmarked k i o = has_key k i o && not o.stale

-- An object that is there and not stale is in the list that the loop runs over.
listed :
    (k i : Ident) (l : List EventRiskObject) (o : EventRiskObject)
    → find_object k i l ≡ some o
    → o.stale ≡ false
    → any (unmarked k i) (list_objects k l) ≡ true
listed k i l o found fresh =
    let own : List EventRiskObject = filter_by (λ x. x.event_id == k) l in
    let key = find-holds (has_key k i) l o found in
    any-sort_on (λ x. x.created_at) (unmarked k i) own
    ∙ any-find_of (has_key k i) (unmarked k i) own o
        (find-filter_by (has_key k i) (λ x. x.event_id == k) l o found (ground arith))
        (ground arith)

module _ (env : Env) (k i : Ident) (r : AlertAppendRequest) where
  mark_unless-ok :
      (o : EventRiskObject) (b : Bool) (s : Store) → (mark_unless env r o b s).0 ≡ ok tt
  unfolding mark_stale save_risk_object_version ◌>>=◌
  mark_unless-ok o true s = refl
  mark_unless-ok o false s = refl

  mark_all-ok : (l : List EventRiskObject) (s : Store) → (mark_all env r l s).0 ≡ ok tt
  unfolding mark_all ◌>>=◌
  mark_all-ok [] s = refl
  mark_all-ok (o ∷ l) s =
      rw (mark_unless-ok o o.stale s) (mark_all-ok l (mark_unless env r o o.stale s).1)

  mark_all-cons :
      (o : EventRiskObject) (l : List EventRiskObject) (s : Store)
      → (mark_all env r (o ∷ l) s).1 ≡ (mark_all env r l (mark_unless env r o o.stale s).1).1
  unfolding mark_all ◌>>=◌
  mark_all-cons o l s = rw (mark_unless-ok o o.stale s) refl

  marked_one :
      (o : EventRiskObject) (b : Bool) (s : Store)
      → has_key k i o ≡ true
      → b ≡ false
      → IsStale k i (mark_unless env r o b s).1
  unfolding mark_stale save_risk_object_version ◌>>=◌
  marked_one o true s key h = absurd (ground arith)
  marked_one o false s key h =
      let u = record o {
        stale = true;
        version = o.version + 1;
        updated_at = some (env.clock s.ticks);
      } in
      (u, ground (arith, find_object-put_object k i u s.objects), refl)

  mark_all-IsStale :
      (l : List EventRiskObject) (s : Store)
      → any (unmarked k i) l ≡ true
      → IsStale k i (mark_all env r l s).1
  mark_all-IsStale [] s h = absurd (ground arith)
  mark_all-IsStale (o ∷ l) s h =
      let s' = (mark_unless env r o o.stale s).1 in
      let law = LedgerLaw-Allows env (IsStale k i) (stale_law env k i) in
      subst (IsStale k i) (sym (mark_all-cons o l s)) (elim (Bool-cases (unmarked k i o)) [
        | inl e ↦
            (mark_all-Keeps env (IsStale k i) law (λ u f. save_object-IsStale env k i u λ _. f) r
                l).at
              s' (marked_one o o.stale s (ground arith) (ground arith))
        | inr e ↦ mark_all-IsStale l s' (ground arith)
      ])

  -- The store when the loop of `append_alert` starts.
  abbrev before_marks : ResponseEvent → ℕ → Store → Store
  before_marks old n s = record s {
    alerts =
        s.alerts ++ snapshot_of env r.alert (env.uuid alt s.minted) k n (env.clock s.ticks) ∷ [];
    events =
        put_event (record old { current_alert_version = n; updated_at = env.clock (s.ticks + 1) })
          s.events;
    ticks = s.ticks + 1 + 1;
    minted = s.minted + 1;
  }

  revise_alert-objects :
      (old : ResponseEvent) (n : ℕ) (s : Store)
      → (revise_alert env k r old n s).1.objects
        ≡ (mark_all env r (list_objects k s.objects) (before_marks old n s)).1.objects
  unfolding revise_alert record_entry ◌>>=◌
  revise_alert-objects old n s =
      rw (mark_all-ok (list_objects k s.objects) (before_marks old n s)) refl

  -- An object that is there is stale already, or marked by the loop.
  revise_alert-IsStale :
      (old : ResponseEvent) (n : ℕ) (s : Store) (o : EventRiskObject)
      → find_object k i s.objects ≡ some o
      → IsStale k i (revise_alert env k r old n s).1
  revise_alert-IsStale old n s o found =
      let start = before_marks old n s in
      let law = LedgerLaw-Allows env (IsStale k i) (stale_law env k i) in
      subst (Stored k i) (sym (revise_alert-objects old n s)) (elim (Bool-cases o.stale) [
        | inl e ↦
            (mark_all-Keeps env (IsStale k i) law (λ u f. save_object-IsStale env k i u λ _. f) r
                (list_objects k s.objects)).at
              start (o, found, e)
        | inr e ↦ mark_all-IsStale (list_objects k s.objects) start (listed k i s.objects o found e)
      ])

  append_alert_known :
      (s : Store) (a : AlertSnapshot) (old : ResponseEvent)
      → (append_alert env k r s).0 ≡ ok a
      → find_event k s.events ≡ some old
      → let n = length (list_alerts k s.alerts) + 1 in
        (((append_alert env k r s).1 ≡ s) × (last? (list_alerts k s.alerts) ≡ some a))
        ⊎ ((append_alert env k r s).1 ≡ (revise_alert env k r old n s).1)
  unfolding append_alert get_event ◌>>=◌
  append_alert_known s a old h found = ground arith

  append_alert_missing :
      (s : Store) (a : AlertSnapshot)
      → (append_alert env k r s).0 ≡ ok a
      → find_event k s.events ≢ none
  unfolding append_alert get_event ◌>>=◌
  append_alert_missing s a h = ground arith

-- No task is drafted for a stale object.
create_task_refused :
    (env : Env) (k : Ident) (q : TaskCreateRequest) (s : Store)
    → q.idempotency_key ≡ none
    → IsStale k q.object_id s
    → (t : ResponseTask) → (create_task env k q s).0 ≢ ok t
unfolding create_task draft_task get_event is_ready is_truthy ◌>>=◌
create_task_refused env k q s plain (o, found, old) t = ground arith

-- A revision of an alert: `append_alert` that returns either repeats the last snapshot of the event
-- and changes nothing, or makes stale each risk object of the event that is there; the object stays
-- so whatever calls follow, as long as none of them verifies it or adds objects to its event, and a
-- request without an idempotency key to draft a task for it then raises.
pub append_alert-stale :
    (env : Env) (k : Ident) (r : AlertAppendRequest) (s : Store) (a : AlertSnapshot)
    (q : TaskCreateRequest) (o : EventRiskObject) (cs : List Call)
    → (append_alert env k r s).0 ≡ ok a
    → find_object k q.object_id s.objects ≡ some o
    → All (λ c. refreshes k q.object_id c ≡ false) cs
    → q.idempotency_key ≡ none
    → (((append_alert env k r s).1 ≡ s) × (last? (list_alerts k s.alerts) ≡ some a))
      ⊎ (IsStale k q.object_id (serve_all env cs (append_alert env k r s).1)
          × ((t : ResponseTask)
              → (create_task env k q (serve_all env cs (append_alert env k r s).1)).0 ≢ ok t))
append_alert-stale env k r s a q o cs h found away plain =
    let i = q.object_id in
    elim (Option-cases (find_event k s.events)) [
      | inl nowhere ↦ absurd (append_alert_missing env k i r s a h nowhere)
      | inr (old, there) ↦ elim (append_alert_known env k i r s a old h there) [
        | inl repeated ↦ inl repeated
        | inr e ↦
            let n = length (list_alerts k s.alerts) + 1 in
            let marked = revise_alert-IsStale env k i r old n s o found in
            let later =
              serve_all-IsStale env k i cs (append_alert env k r s).1 away
                (subst (IsStale k i) (sym e) marked) in
            inr (
              later,
              create_task_refused env k q (serve_all env cs (append_alert env k r s).1) plain later,
            )
      ]
    ]
