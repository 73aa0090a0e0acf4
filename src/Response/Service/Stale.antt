-- ===== src/Response/Service/Stale.antt =====
-- Risk objects over a run of the service: a revision of the alert makes them stale, and they stay so
-- until they are verified or added again.
use mathlib.Core.Path.{subst, sym}
use flood_agent.Base.{
  ◌≡◌, ◌⊎◌, inl, inr, arith, Bool, true, false, ◌&&◌, none, some, List, [], ◌∷◌, ◌==◌, Ident, All,
  Bool-cases, Option-cases, find-holds,
}
use flood_agent.Response.Requests.{AlertAppendRequest, RiskObjectVerificationRequest}
use flood_agent.Response.Records.{EventRiskObject}
use flood_agent.Response.Store.{Env, Store, find_object}
use flood_agent.Response.Store.Tables.{has_key, find_object-put_object}
use flood_agent.Response.Exec.{save_object, ◌>>=◌}
use flood_agent.Response.Exec.Keeps.{Keeps}
use flood_agent.Response.Guards.{get_event}
use flood_agent.Response.Timeline.{record_entry}
use flood_agent.Response.Alerts.{append_alert}
use flood_agent.Response.Objects.{settle_object, verify_risk_object}
use flood_agent.Response.Revisions.{append_alert-Keeps, add_risk_objects-Keeps, settle_object-Keeps}
use flood_agent.Response.Ledger.{LedgerLaw}
use flood_agent.Response.Ledger.Revisions.{LedgerLaw-Allows}
use flood_agent.Response.Service.{Call, append, add_objects, verify_object, serve_all}
use flood_agent.Response.Service.Kept.{OwnKeeps, serve_all-Keeps}

-- The object `i` of the event `k` is there, and stale.
abbrev pub IsStale : Ident → Ident → Store → Type 0
IsStale k i s = (o : EventRiskObject) × (find_object k i s.objects ≡ some o) × (o.stale ≡ true)

-- The call verifies this object, or adds objects to its event.
abbrev pub refreshes : Ident → Ident → Call → Bool
refreshes k i (verify_object a b r) = a == k && b == i
refreshes k i (add_objects a r) = a == k
refreshes k i _ = false

module _ (env : Env) (k i : Ident) where
  pub stale_law : LedgerLaw env (IsStale k i)
  unfolding record_entry
  stale_law = record {
    waits = λ s t timeline objects later more (o, found, old). (o, ground (arith, objects), old);
    records = λ a s h. h;
  }

  -- A write that leaves this object alone, or makes it stale.
  pub save_object-IsStale :
      (u : EventRiskObject)
      → (has_key k i u ≡ true → u.stale ≡ true)
      → Keeps (IsStale k i) (save_object u)
  unfolding save_object
  save_object-IsStale u fine = record {
    at = λ s (o, found, old). elim (Bool-cases (has_key k i u)) [
      | inl e ↦ (u, ground (arith, find_object-put_object k i u s.objects), fine e)
      | inr e ↦ (o, ground (arith, find_object-put_object k i u s.objects), old)
    ];
  }

  verify_risk_object_cases :
      (a b : Ident) (r : RiskObjectVerificationRequest) (s : Store) (o : EventRiskObject)
      → find_object a b s.objects ≡ some o
      → ((verify_risk_object env a b r s).1 ≡ s)
        ⊎ ((verify_risk_object env a b r s).1 ≡ (settle_object env a b r o s).1)
  unfolding verify_risk_object get_event ◌>>=◌
  verify_risk_object_cases a b r s o found = ground arith

  verify_risk_object_missing :
      (a b : Ident) (r : RiskObjectVerificationRequest) (s : Store)
      → find_object a b s.objects ≡ none
      → (verify_risk_object env a b r s).1 ≡ s
  unfolding verify_risk_object get_event ◌>>=◌
  verify_risk_object_missing a b r s missing = ground arith

  -- Verifying another object keeps this one as it is.
  other_verified :
      (a b : Ident) (r : RiskObjectVerificationRequest)
      → (a == k && b == i) ≡ false
      → (s : Store) → IsStale k i s
      → IsStale k i (verify_risk_object env a b r s).1
  other_verified a b r other s h = elim (Option-cases (find_object a b s.objects)) [
    | inl missing ↦ subst (IsStale k i) (sym (verify_risk_object_missing a b r s missing)) h
    | inr (o, found) ↦
        let keys = find-holds (has_key a b) s.objects o found in
        let settled =
          (settle_object-Keeps env (IsStale k i) (LedgerLaw-Allows env (IsStale k i) stale_law) a b
              r o λ u e f. save_object-IsStale u λ same. absurd (ground arith)).at
            s h in
        elim (verify_risk_object_cases a b r s o found) [
          | inl e ↦ subst (IsStale k i) (sym e) h
          | inr e ↦ subst (IsStale k i) (sym e) settled
        ]
  ]

  append_alert-IsStale :
      (a : Ident) (r : AlertAppendRequest) → Keeps (IsStale k i) (append_alert env a r)
  append_alert-IsStale a r =
      append_alert-Keeps env (IsStale k i) (LedgerLaw-Allows env (IsStale k i) stale_law)
        (λ o e. save_object-IsStale o λ _. e) a r

  own_stale : (c : Call) → refreshes k i c ≡ false → OwnKeeps env (IsStale k i) stale_law c
  own_stale (append a r) h = (append_alert-IsStale a r).at
  own_stale (add_objects a r) h =
      (add_risk_objects-Keeps env (IsStale k i) (LedgerLaw-Allows env (IsStale k i) stale_law) a
        (λ o e. save_object-IsStale o λ same. absurd (ground arith)) r).at
  own_stale (verify_object a b r) h = other_verified a b r h
  own_stale _ h = tt

  all_own :
      (cs : List Call)
      → All (λ c. refreshes k i c ≡ false) cs
      → All (OwnKeeps env (IsStale k i) stale_law) cs
  all_own [] h = tt
  all_own (c ∷ cs) (h, hs) = (own_stale c h, all_own cs hs)

  pub serve_all-IsStale :
      (cs : List Call) (s : Store)
      → All (λ c. refreshes k i c ≡ false) cs
      → IsStale k i s
      → IsStale k i (serve_all env cs s)
  serve_all-IsStale cs s h = serve_all-Keeps env (IsStale k i) stale_law cs (all_own cs h) s
