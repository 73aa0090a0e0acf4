-- ===== src/Response/Lifecycle.antt =====
-- The life of a task as an abstract machine: what one operation of the service may do to a stored
-- task, whatever else it reads and writes.
pub mod Ending
pub mod Execution
pub mod Drafting
pub mod Feedback
pub mod Tables
pub mod Approval
pub mod Quiet
pub mod Creation
pub mod Revisions
pub mod Sweep
use mathlib.Core.Path.{subst, sym, refl}
use flood_agent.Base.{
  ℕ, suc, ◌≡◌, ◌≢◌, ◌⊎◌, inl, inr, Bool, true, false, some, none, Option, Option-cases, List, arith,
  Ident, Time,
}
use flood_agent.Response.Enums.{TaskStatus, draft, pending_approval, issued, waived, cancelled}
use flood_agent.Response.Transitions.{can_transition}
use flood_agent.Response.Task.{ResponseTask, payload_of}
use flood_agent.Response.Store.{Env, Store, find_task, put_task}
use flood_agent.Response.Store.Laws.{find_task-key}
use flood_agent.Response.Execution.{task_payload_hash}

abbrev pub is_drafting : TaskStatus → Bool
is_drafting draft = true
is_drafting pending_approval = true
is_drafting issued = true
is_drafting _ = false

-- What an approval fixes is left alone.
abbrev pub SameContent : ResponseTask → ResponseTask → Type 0
SameContent t u =
    (payload_of u ≡ payload_of t)
    × (u.approval_payload_hash ≡ t.approval_payload_hash)
    × (u.approved_version ≡ t.approved_version)

pub record SameKeys (t u : ResponseTask) : Type 0 where
  pub task_id : u.task_id ≡ t.task_id
  pub event_id : u.event_id ≡ t.event_id
  pub object_id : u.object_id ≡ t.object_id

pub data TaskStep (env : Env) (t u : ResponseTask) : Type 0 where
  -- a draft is edited, and gets the next version
  edited :
      SameKeys t u
      → (t.status ≡ draft)
        × (u.status ≡ draft)
        × (u.version ≡ suc t.version)
        × (u.approval_payload_hash ≡ t.approval_payload_hash)
        × (u.approved_version ≡ t.approved_version)
      → TaskStep env t u
  -- a draft is handed in for approval
  submitted :
      SameKeys t u
      → (t.status ≡ draft) × (u.status ≡ pending_approval)
      → SameContent t u
      → TaskStep env t u
  -- a task is sent back to its drafter, with the next version
  returned :
      SameKeys t u
      → (t.status ≡ pending_approval)
        × (u.status ≡ draft)
        × (u.version ≡ suc t.version)
        × (u.approval_payload_hash ≡ t.approval_payload_hash)
        × (u.approved_version ≡ t.approved_version)
      → TaskStep env t u
  -- a task is approved and issued: the hash of its payload is fixed
  approved :
      SameKeys t u
      → (t.status ≡ pending_approval)
        × (u.status ≡ issued)
        × (payload_of u ≡ payload_of t)
        × (u.approval_payload_hash ≡ some (task_payload_hash env t))
        × (u.approved_version ≡ some t.version)
      → TaskStep env t u
  -- an allowed transition other than those
  progressed :
      SameKeys t u
      → (can_transition t.status u.status ≡ true) × (is_drafting u.status ≡ false)
      → SameContent t u
      → TaskStep env t u
  -- the status stays
  amended : SameKeys t u → u.status ≡ t.status → SameContent t u → TaskStep env t u

-- What one call of a method may do to the task table.
pub data Effect (env : Env) (s s' : Store) : Type 0 where
  untouched : s'.tasks ≡ s.tasks → Effect env s s'
  moved :
      (t u : ResponseTask)
      → find_task t.task_id s.tasks ≡ some t
      → TaskStep env t u
      → s'.tasks ≡ put_task u s.tasks
      → Effect env s s'

-- A call that looks a task up: nothing happens if there is none, else its cases decide.
pub Effect-of_task :
    (env : Env) (task_id : Ident) (s s' : Store)
    → (find_task task_id s.tasks ≡ none → s'.tasks ≡ s.tasks)
    → ((t : ResponseTask)
        → find_task task_id s.tasks ≡ some t
        → (s'.tasks ≡ s.tasks)
          ⊎ ((u : ResponseTask) × TaskStep env t u × (s'.tasks ≡ put_task u s.tasks)))
    → Effect env s s'
Effect-of_task env task_id s s' missing cases = elim (Option-cases (find_task task_id s.tasks)) [
  | inl e ↦ untouched (missing e)
  | inr (t, e) ↦ elim (cases t e) [
    | inl same ↦ untouched same
    | inr (u, step, write) ↦
        moved t u
          (subst (λ k. find_task k s.tasks ≡ some t) (sym (find_task-key task_id s.tasks e)) e) step
          write
  ]
]

-- An allowed transition that writes the status and the time alone.
pub progress_step :
    (env : Env) (t : ResponseTask) (target : TaskStatus) (moment : Time)
    → can_transition t.status target ≡ true
    → is_drafting target ≡ false
    → TaskStep env t (record t { status = target; updated_at = moment })
progress_step env t target moment can late =
    progressed (record { task_id = refl; event_id = refl; object_id = refl }) (can, late)
      (refl, refl, refl)

-- The two outcomes of a call on a task that was found.
abbrev pub Outcome : Env → Store → Store → ResponseTask → Type 0
Outcome env s s' t =
    (s'.tasks ≡ s.tasks) ⊎ ((u : ResponseTask) × TaskStep env t u × (s'.tasks ≡ put_task u s.tasks))

-- An outcome that is a transition, from the facts that a case split on the code gives.
pub Outcome-of_progress :
    (env : Env) (s s' : Store) (t : ResponseTask) (target : TaskStatus) (moment : Time)
    → is_drafting target ≡ false
    → (s'.tasks ≡ s.tasks)
      ⊎ ((can_transition t.status target ≡ true)
          × (s'.tasks ≡ put_task (record t { status = target; updated_at = moment }) s.tasks))
    → Outcome env s s' t
Outcome-of_progress env s s' t target moment late (inl same) = inl same
Outcome-of_progress env s s' t target moment late (inr (can, write)) = inr (
  record t { status = target; updated_at = moment },
  progress_step env t target moment can late,
  write,
)

-- What any number of such steps may do to the task table.
pub data Evolves (env : Env) (l : List ResponseTask) : List ResponseTask → Type 0 where
  still : Evolves env l l
  stepped :
      {m n : List ResponseTask}
      → Evolves env l m
      → (t u : ResponseTask) → find_task t.task_id m ≡ some t
      → TaskStep env t u
      → n ≡ put_task u m
      → Evolves env l n

pub Effect-Evolves : (env : Env) (s s' : Store) → Effect env s s' → Evolves env s.tasks s'.tasks
Effect-Evolves env s s' (untouched e) = subst (Evolves env s.tasks) (sym e) still
Effect-Evolves env s s' (moved t u found step e) = stepped still t u found step e
