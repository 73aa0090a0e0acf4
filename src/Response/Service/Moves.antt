-- ===== src/Response/Service/Moves.antt =====
-- The statuses that a task has after the calls of a run, one after another.
use mathlib.Core.Path.{subst, sym}
use flood_agent.Base.{
  ◌≡◌, ◌⊎◌, Option, inl, inr, refl, ap, ◌∙◌, arith, true, none, some, List, [], ◌∷◌, Ident, ◌==◌,
  Bool-cases,
}
use flood_agent.Response.Enums.{TaskStatus, draft, pending_approval, issued, escalated}
use flood_agent.Response.Transitions.{can_transition}
use flood_agent.Response.Task.{ResponseTask}
use flood_agent.Response.Store.{Env, Store, find_task, put_task}
use flood_agent.Response.Store.Laws.{find_task-put_task}
use flood_agent.Response.Lifecycle.{
  untouched, moved, TaskStep, edited, submitted, returned, approved, progressed, amended,
}
use flood_agent.Response.Store.Keys.{DistinctKeys}
use flood_agent.Response.Lifecycle.Sweep.{Escalates, unswept, swept}
use flood_agent.Response.Service.Changes.{
  Change, one_step, sweeping, drafting, serve-Change, serve-Grows,
}
use flood_agent.Response.Service.Growth.{FreshIds, step-keys, Grows-DistinctKeys, FreshIds-serve}
use flood_agent.Response.Service.{Call, serve}

-- The statuses, where the key finds a task.
abbrev pub status_of : Option ResponseTask → Option TaskStatus
status_of none = none
status_of (some t) = some t.status

-- The status under the key after each call of the run.
unfoldable pub statuses : Env → Ident → List Call → Store → List (Option TaskStatus)
statuses env k [] s = []
statuses env k (c ∷ cs) s =
    let s' = serve env c s in status_of (find_task k s'.tasks) ∷ statuses env k cs s'

-- The status stays, or one allowed transition is made.
abbrev pub IsMove : TaskStatus → TaskStatus → Type 0
IsMove a b = (b ≡ a) ⊎ (can_transition a b ≡ true)

-- From the status `a`, each of these is one move from the one before.
abbrev pub Moves : TaskStatus → List (Option TaskStatus) → Type 0
Moves a [] = Unit
Moves a (o ∷ os) = (b : TaskStatus) × (o ≡ some b) × IsMove a b × Moves b os

allowed :
    (s t x y : TaskStatus) → s ≡ x → t ≡ y → can_transition x y ≡ true → can_transition s t ≡ true
allowed s t x y e d can = ground arith

step-IsMove : (env : Env) (t u : ResponseTask) → TaskStep env t u → IsMove t.status u.status
unfolding can_transition
step-IsMove env t u (edited _ h) = inl (h.1 ∙ sym h.0)
step-IsMove env t u (submitted _ h _) = inr (allowed _ _ draft pending_approval h.0 h.1 refl)
step-IsMove env t u (returned _ h) = inr (allowed _ _ pending_approval draft h.0 h.1 refl)
step-IsMove env t u (approved _ h) = inr (allowed _ _ pending_approval issued h.0 h.1 refl)
step-IsMove env t u (progressed _ h _) = inr h.0
step-IsMove env t u (amended _ h _) = inl h

-- The key finds a task that is one move from the status `a`.
abbrev IsNear : Ident → TaskStatus → List ResponseTask → Type 0
IsNear k a l = (u : ResponseTask) × (find_task k l ≡ some u) × IsMove a u.status

found_once :
    (k i : Ident) (t u : ResponseTask) (l : List ResponseTask)
    → i ≡ k
    → find_task i l ≡ some t
    → find_task k l ≡ some u
    → t ≡ u
found_once k i t u l e found stored = ground arith

step-IsNear :
    (env : Env) (k : Ident) (t a b : ResponseTask) (l : List ResponseTask)
    → find_task a.task_id l ≡ some a
    → TaskStep env a b
    → find_task k l ≡ some t
    → IsNear k t.status (put_task b l)
step-IsNear env k t a b l found step stored = elim (Bool-cases (b.task_id == k)) [
  | inl e ↦ (
    b,
    ground (arith, find_task-put_task k b l),
    subst (λ x. IsMove x.status b.status)
        (found_once k a.task_id a t l (ground (arith, step-keys env a b step)) found stored)
        (step-IsMove env a b step),
  )
  | inr e ↦ (t, ground (arith, find_task-put_task k b l), inl refl)
]

-- However often a sweep escalates a task, it is one move.
abbrev IsSwept : Ident → TaskStatus → List ResponseTask → Type 0
IsSwept k a l =
    (u : ResponseTask) × (find_task k l ≡ some u)
    × ((u.status ≡ a) ⊎ ((u.status ≡ escalated) × (can_transition a escalated ≡ true)))

may_escalate :
    (a : TaskStatus) (t u : ResponseTask)
    → can_transition t.status escalated ≡ true
    → t ≡ u
    → (u.status ≡ a) ⊎ ((u.status ≡ escalated) × (can_transition a escalated ≡ true))
    → can_transition a escalated ≡ true
may_escalate a t u can e (inl stays) =
    subst (λ x. can_transition x escalated ≡ true) (ap (λ x. x.status) e ∙ stays) can
may_escalate a t u can e (inr (moves, could)) = could

Escalates-IsSwept :
    (k : Ident) (a : TaskStatus) (l m : List ResponseTask)
    → Escalates l m
    → IsSwept k a l
    → IsSwept k a m
Escalates-IsSwept k a l m unswept h = h
Escalates-IsSwept k a l n (swept {m = m} so_far t moment found can write) h =
    let (u, stored, state) = Escalates-IsSwept k a l m so_far h in
    let v : ResponseTask = record t { status = escalated; updated_at = moment } in
    subst (IsSwept k a) (sym write) (elim (Bool-cases (t.task_id == k)) [
      | inl e ↦ (
        v,
        ground (arith, find_task-put_task k v m),
        inr (
          refl,
          may_escalate a t u can (found_once k t.task_id t u m (ground arith) found stored) state,
        ),
      )
      | inr e ↦ (u, ground (arith, find_task-put_task k v m), state)
    ])

IsSwept-IsNear : (k : Ident) (a : TaskStatus) (l : List ResponseTask) → IsSwept k a l → IsNear k a l
IsSwept-IsNear k a l (u, stored, inl stays) = (u, stored, inl stays)
IsSwept-IsNear k a l (u, stored, inr (moves, could)) =
    (u, stored, inr (subst (λ x. can_transition a x ≡ true) (sym moves) could))

added-IsNear :
    (k : Ident) (t u : ResponseTask) (l : List ResponseTask)
    → find_task u.task_id l ≡ none
    → find_task k l ≡ some t
    → IsNear k t.status (put_task u l)
added-IsNear k t u l new stored = elim (Bool-cases (u.task_id == k)) [
  | inl e ↦ absurd (ground arith)
  | inr e ↦ (t, ground (arith, find_task-put_task k u l), inl refl)
]

-- One call is one move.
Change-IsNear :
    (env : Env) (k : Ident) (t : ResponseTask) (s s' : Store)
    → Change env s s'
    → find_task k s.tasks ≡ some t
    → IsNear k t.status s'.tasks
Change-IsNear env k t s s' (one_step (untouched e)) stored =
    subst (IsNear k t.status) (sym e) (t, stored, inl refl)
Change-IsNear env k t s s' (one_step (moved a b found step e)) stored =
    subst (IsNear k t.status) (sym e) (step-IsNear env k t a b s.tasks found step stored)
Change-IsNear env k t s s' (sweeping e) stored =
    IsSwept-IsNear k t.status s'.tasks
      (Escalates-IsSwept k t.status s.tasks s'.tasks e (t, stored, inl refl))
Change-IsNear env k t s s' (drafting u new facts e) stored =
    subst (IsNear k t.status) (sym e) (added-IsNear k t u s.tasks new stored)

-- Where no two tasks have one key and the keys of later tasks are new, the key of a stored task
-- finds a task after each call of any run, and each call leaves its status as it was or makes one
-- transition that the table allows, so that no call skips a status.
pub statuses-Moves :
    (env : Env) (k : Ident) (t : ResponseTask) (cs : List Call) (s : Store)
    → DistinctKeys s.tasks
    → FreshIds env s
    → find_task k s.tasks ≡ some t
    → Moves t.status (statuses env k cs s)
unfolding statuses
statuses-Moves env k t [] s keys fresh stored = tt
statuses-Moves env k t (c ∷ cs) s keys fresh stored =
    let s' = serve env c s in
    let done = serve-Grows env c s keys fresh.1 in
    let (u, found, move) = Change-IsNear env k t s s' (serve-Change env c s keys fresh.1) stored in
    (
      u.status,
      ap status_of found,
      move,
      statuses-Moves env k u cs s' (Grows-DistinctKeys env s s' keys done)
          (FreshIds-serve env c s fresh done) found,
    )
