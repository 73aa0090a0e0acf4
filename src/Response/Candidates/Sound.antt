-- ===== src/Response/Candidates/Sound.antt =====
-- What freezing a list of candidates that returns has checked.
use mathlib.Core.Path.{subst, sym}
use flood_agent.Base.{
  ◌≡◌, ◌≢◌, ◌⊎◌, inl, inr, refl, ap, ◌∙◌, arith, true, Option, none, some, List, [], ◌∷◌, ◌++◌,
  Ident, All, last?, zero, suc, find-holds, Option-cases,
}
use flood_agent.Response.Requests.{CandidateObjectListFreezeRequest}
use flood_agent.Response.Records.{
  ResponseEvent, EventRiskObject, AlertSnapshot, CandidateObjectListVersion,
  CandidateObjectReference,
}
use flood_agent.Response.Store.{Env, Store, find_event, find_object}
use flood_agent.Response.Store.Tables.{has_key, list_alerts, list_objects, list_object_lists}
use flood_agent.Response.Exec.{ok, pure, ◌>>=◌}
use flood_agent.Response.Exec.Keeps.{Keeps, keeps_rules, Keeps-bind, Keeps-pure}
use flood_agent.Response.Exec.Leads.{returned_both}
use flood_agent.Response.Guards.{get_event}
use flood_agent.Response.Timeline.{record_entry}
use flood_agent.Response.Creation.{is_ready, is_current, is_snapshot}
use flood_agent.Response.Candidates.{
  Taken, source_run, take_object, take_objects, push, references_of, store_list, latest_or_new,
  selected_ids, sorted_names, freeze_candidate_object_list,
}

-- The object is there, confirmed and not stale.
abbrev IsGood : Ident → Store → Taken → Type 0
IsGood k s x = (find_object k x.0.object_id s.objects ≡ some x.0) × (is_ready (some x.0) ≡ true)

module _ (k : Ident) (a : AlertSnapshot) (s : Store) where
  abbrev Same : Store → Type 0
  Same t = t ≡ s

  source_run-Same : (i : Ident) → Keeps Same (source_run k a i)
  source_run-Same zero = search keeps_rules
  source_run-Same (suc n) = search keeps_rules depth 16

  take_object-Same : (i : Ident) → Keeps Same (take_object k a i)
  unfolding take_object
  take_object-Same i = search (keeps_rules, source_run-Same) depth 20

  take_object_facts :
      (i : Ident) (o : EventRiskObject) (x : Taken)
      → find_object k i s.objects ≡ some o
      → (take_object k a i s).0 ≡ ok x
      → (x.0 ≡ o) × (is_ready (some o) ≡ true)
  unfolding take_object ◌>>=◌
  take_object_facts i o x there h = ground arith

  take_object_there :
      (i : Ident) (x : Taken) → (take_object k a i s).0 ≡ ok x → find_object k i s.objects ≢ none
  unfolding take_object ◌>>=◌
  take_object_there i x h = ground arith

  take_object-IsGood : (i : Ident) (x : Taken) → (take_object k a i s).0 ≡ ok x → IsGood k s x
  take_object-IsGood i x h = elim (Option-cases (find_object k i s.objects)) [
    | inl missing ↦ absurd (take_object_there i x h missing)
    | inr (o, there) ↦
        let key = find-holds (has_key k i) s.objects o there in
        let (same, ready) = take_object_facts i o x there h in
        subst (λ u. (find_object k u.object_id s.objects ≡ some u) × (is_ready (some u) ≡ true))
          (sym same) (ground (arith, key, there), ready)
  ]

  taken_same : (xs ys : List Taken) → ok xs ≡ ok ys → xs ≡ ys
  taken_same xs ys h = ground arith

  take_objects-IsGood :
      (ids : List Ident) (xs : List Taken)
      → (take_objects k a ids s).0 ≡ ok xs
      → All (IsGood k s) xs
  unfolding take_objects pure
  take_objects-IsGood [] xs h = subst (All (IsGood k s)) (taken_same [] xs h) tt
  take_objects-IsGood (i ∷ ids) xs h =
      let (x, first, later, _) =
        returned_both (take_object k a i) (λ x. take_objects k a ids >>= push x) s xs h in
      let same = (take_object-Same i).at s refl in
      let (ys, rest, all, _) =
        returned_both (take_objects k a ids) (push x) (take_object k a i s).1 xs later in
      subst (All (IsGood k s)) (taken_same (x ∷ ys) xs all) (
        take_object-IsGood i x first,
        take_objects-IsGood ids ys (ap (λ t. (take_objects k a ids t).0) (sym same) ∙ rest),
      )

  take_objects-Same : (ids : List Ident) → Keeps Same (take_objects k a ids)
  unfolding take_objects
  take_objects-Same [] = Keeps-pure _
  take_objects-Same (i ∷ ids) =
      Keeps-bind _ _ (take_object-Same i)
        λ x. Keeps-bind _ _ (take_objects-Same ids) λ xs. Keeps-pure _

-- The reference is of an object that is there, confirmed and not stale, and as it is.
abbrev pub IsBacked : Env → Ident → Store → CandidateObjectReference → Type 0
IsBacked env k s c =
    (o : EventRiskObject) × (find_object k c.object_id s.objects ≡ some o)
    × (is_ready (some o) ≡ true)
    × (is_current env o c ≡ true)

module _ (env : Env) (k : Ident) (r : CandidateObjectListFreezeRequest) (s : Store) where
  references_of-IsBacked :
      (xs : List Taken) → All (IsGood k s) xs → All (IsBacked env k s) (references_of env xs)
  references_of-IsBacked [] h = tt
  references_of-IsBacked (x ∷ xs) (good, h) =
      ((x.0, good.0, good.1, ground arith), references_of-IsBacked xs h)

  freeze_event :
      (l : CandidateObjectListVersion)
      → (freeze_candidate_object_list env k r s).0 ≡ ok l
      → find_event k s.events ≢ none
  unfolding freeze_candidate_object_list get_event ◌>>=◌
  freeze_event l h = ground arith

  freeze_alert :
      (l : CandidateObjectListVersion)
      → (freeze_candidate_object_list env k r s).0 ≡ ok l
      → last? (list_alerts k s.alerts) ≢ none
  unfolding freeze_candidate_object_list get_event ◌>>=◌
  freeze_alert l h = ground arith

  -- The store and the result of a call that returns are those of its end.
  freeze_known :
      (l : CandidateObjectListVersion) (e : ResponseEvent) (a : AlertSnapshot)
      → (freeze_candidate_object_list env k r s).0 ≡ ok l
      → find_event k s.events ≡ some e
      → last? (list_alerts k s.alerts) ≡ some a
      → let ids = sorted_names env (selected_ids env r.object_ids (list_objects k s.objects)) in
        let latest = last? (list_object_lists k s.object_lists) in
        freeze_candidate_object_list env k r s
        ≡ (take_objects k a ids >>= latest_or_new env k r e a latest) s
  unfolding freeze_candidate_object_list get_event ◌>>=◌
  freeze_known l e a h there alert = ground arith

  -- What the end of a call that returns has done.
  abbrev Ended :
      Store
      → Option CandidateObjectListVersion
      → AlertSnapshot
      → List Taken
      → CandidateObjectListVersion
      → Type 0
  Ended t latest a xs l =
      ((t ≡ s) × (latest ≡ some l))
      ⊎ ((t.object_lists ≡ s.object_lists ++ l ∷ [])
          × (l.objects ≡ references_of env xs)
          × (l.alert_snapshot_id ≡ a.snapshot_id))

  latest_or_new-Ended :
      (e : ResponseEvent) (a : AlertSnapshot) (latest : Option CandidateObjectListVersion)
      (xs : List Taken) (l : CandidateObjectListVersion)
      → (latest_or_new env k r e a latest xs s).0 ≡ ok l
      → Ended (latest_or_new env k r e a latest xs s).1 latest a xs l
  unfolding store_list record_entry ◌>>=◌
  latest_or_new-Ended e a none xs l h = ground arith
  latest_or_new-Ended e a (some old) xs l h = ground arith

  freeze-Ended :
      (l : CandidateObjectListVersion) (e : ResponseEvent) (a : AlertSnapshot)
      → (freeze_candidate_object_list env k r s).0 ≡ ok l
      → find_event k s.events ≡ some e
      → last? (list_alerts k s.alerts) ≡ some a
      → (xs : List Taken) × All (IsGood k s) xs
        × Ended
            (freeze_candidate_object_list env k r s).1
            (last? (list_object_lists k s.object_lists))
            a
            xs
            l
  freeze-Ended l e a h there alert =
      let ids = sorted_names env (selected_ids env r.object_ids (list_objects k s.objects)) in
      let latest = last? (list_object_lists k s.object_lists) in
      let known = freeze_known l e a h there alert in
      let ended = latest_or_new env k r e a latest in
      let (xs, taken, done, store) =
        returned_both (take_objects k a ids) ended s l (sym (ap (λ t. t.0) known) ∙ h) in
      let same = (take_objects-Same k a s ids).at s refl in
      let after = ap (λ t. t.1) known ∙ store ∙ ap (λ t. (ended xs t).1) same in
      (
        xs,
        take_objects-IsGood k a s ids xs taken,
        subst (λ t. Ended t latest a xs l) (sym after)
            (latest_or_new-Ended e a latest xs l (ap (λ t. (ended xs t).0) (sym same) ∙ done)),
      )

-- Freezing a list that returns either gives the latest list of the event and changes nothing, or
-- stores a further list: each of its references is of a risk object of the event that is there,
-- confirmed, not stale, and as the reference says, and the list names the last alert snapshot of
-- the event, which is what `create_task` asks of a list.
pub freeze_candidate_object_list_sound :
    (env : Env) (k : Ident) (r : CandidateObjectListFreezeRequest) (s : Store)
    (l : CandidateObjectListVersion)
    → (freeze_candidate_object_list env k r s).0 ≡ ok l
    → let s' = (freeze_candidate_object_list env k r s).1 in
      ((s' ≡ s) × (last? (list_object_lists k s.object_lists) ≡ some l))
      ⊎ ((s'.object_lists ≡ s.object_lists ++ l ∷ [])
          × All (IsBacked env k s) l.objects
          × (is_snapshot (last? (list_alerts k s.alerts)) l.alert_snapshot_id ≡ true))
freeze_candidate_object_list_sound env k r s l h = elim (Option-cases (find_event k s.events)) [
  | inl missing ↦ absurd (freeze_event env k r s l h missing)
  | inr (e, there) ↦ elim (Option-cases (last? (list_alerts k s.alerts))) [
    | inl missing ↦ absurd (freeze_alert env k r s l h missing)
    | inr (a, alert) ↦
        let (xs, good, ended) = freeze-Ended env k r s l e a h there alert in
        elim ended [
          | inl old ↦ inl old
          | inr (stored, objects, snapshot) ↦ inr (
            stored,
            subst (All (IsBacked env k s)) (sym objects) (references_of-IsBacked env k r s xs good),
            ground (arith, alert, snapshot),
          )
        ]
  ]
]
