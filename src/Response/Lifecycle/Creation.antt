-- ===== src/Response/Lifecycle/Creation.antt =====
-- `create_task` adds a draft under a new key, or changes no task.
use flood_agent.Base.{
  ap, Bool, ◌≡◌, ◌⊎◌, ◌<◌, inl, inr, refl, arith, ℕ, Option, none, some, List, Ident,
}
use mathlib.Core.Path.{subst, sym}
use flood_agent.Response.Task.{ResponseTask}
use flood_agent.Response.Requests.{TaskCreateRequest}
use flood_agent.Response.Records.{CandidateObjectListVersion}
use flood_agent.Response.Store.{Env, Store, tsk, put_task}
use flood_agent.Response.Exec.{pure, ◌>>=◌}
use flood_agent.Response.Exec.Keeps.{Keeps, keeps_rules}
use flood_agent.Response.Exec.Leads.{Leads, Leads-then}
use flood_agent.Response.Guards.{get_event}
use flood_agent.Response.Timeline.{record_entry}
use flood_agent.Response.Drafting.{save_task_version_snapshot}
use flood_agent.Response.Creation.{
  resolve_in, resolve_after, resolve_candidate_object_list, store_draft, draft_task, drafted_task,
  return_or_draft, create_task,
}

module _ (env : Env) (k : Ident) (r : TaskCreateRequest) (s : Store) where
  -- No task is changed, or the draft is added under the next key.
  abbrev pub Created : Store → Type 0
  Created t =
      (t.tasks ≡ s.tasks)
      ⊎ ((t.tasks ≡ put_task (drafted_task k r (env.uuid tsk s.minted) (env.clock s.ticks)) s.tasks)
          × (s.minted < t.minted))

  abbrev Same : Store → Type 0
  Same t = t ≡ s

  Same-Created : (t : Store) → Same t → Created t
  Same-Created t e = inl (ap (λ x. x.tasks) e)

  resolve_after-Same :
      (i : Ident) (n : Option ℕ) (l : List CandidateObjectListVersion)
      (o : Option CandidateObjectListVersion)
      → Keeps Same (resolve_after env k i n l o)
  unfolding resolve_in
  resolve_after-Same i n l none = search keeps_rules
  resolve_after-Same i n l (some x) = search keeps_rules depth 30

  resolve-Same : (i : Ident) (n : Option ℕ) → Keeps Same (resolve_candidate_object_list env k i n)
  unfolding resolve_candidate_object_list
  resolve-Same i n = search (keeps_rules, resolve_after-Same) depth 12

  event-Same : (b : Bool) → Keeps Same (get_event k b)
  unfolding get_event
  event-Same b = search keeps_rules depth 12

  stored_draft : (t : Store) → Same t → Created (store_draft env k r t).1
  unfolding store_draft save_task_version_snapshot record_entry ◌>>=◌
  stored_draft t e =
      subst (λ x. Created (store_draft env k r x).1) (sym e) (inr (refl, omega arith))

  store_draft-Leads : Leads Same (store_draft env k r) Created
  store_draft-Leads = record { at = stored_draft }

  return_or_draft-Leads : (o : Option ResponseTask) → Leads Same (return_or_draft env k r o) Created
  unfolding draft_task pure
  return_or_draft-Leads none =
      search (Leads-then, keeps_rules, Same-Created, resolve-Same, store_draft-Leads) depth 30
  return_or_draft-Leads (some t) = record { at = λ x e. Same-Created x e }

  create_task-Leads : Leads Same (create_task env k r) Created
  unfolding create_task
  create_task-Leads =
      search (Leads-then, keeps_rules, Same-Created, event-Same, return_or_draft-Leads) depth 30

  pub create_task-Created : Created (create_task env k r s).1
  create_task-Created = create_task-Leads.at s refl
