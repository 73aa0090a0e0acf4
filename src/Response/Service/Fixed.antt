-- ===== src/Response/Service/Fixed.antt =====
-- What a terminal status and an approval fix for the rest of a run.
use mathlib.Core.Path.{subst, sym}
use flood_agent.Base.{
  ◌≡◌, ◌≢◌, inl, inr, refl, ◌∙◌, ap, arith, Bool, true, false, some, List, [], ◌∷◌, Ident, ◌==◌,
  Bool-cases,
}
use flood_agent.Response.Enums.{TaskStatus, draft, pending_approval, waived, cancelled}
use flood_agent.Response.Transitions.{is_terminal, can_transition}
use flood_agent.Response.Transitions.Laws.{terminal_has_no_exit}
use flood_agent.Response.Task.{ResponseTask, payload_of}
use flood_agent.Response.Requests.{TaskActionRequest}
use flood_agent.Response.Store.{Env, Store, find_task, put_task}
use flood_agent.Response.Store.Laws.{find_task-put_task}
use flood_agent.Response.Exec.{payload_mismatch, err, ◌>>=◌}
use flood_agent.Response.Guards.{get_task, get_event, transition, is_ident}
use flood_agent.Response.Execution.{task_payload_hash, payload_intact, acknowledge_task}
use flood_agent.Response.Store.Keys.{DistinctKeys}
use flood_agent.Response.Lifecycle.{
  Evolves, still, stepped, is_drafting, TaskStep, edited, submitted, returned, approved, progressed,
  amended, SameContent,
}
use flood_agent.Response.Timeline.{task_event}
use flood_agent.Response.Service.{Call, serve, serve_all}
use flood_agent.Response.Service.Life.{Descends, same, more, serve_all-Descends}
use flood_agent.Response.Service.Changes.{serve-Grows}
use flood_agent.Response.Service.Growth.{
  FreshIds, Grows, evolved, added, Grows-DistinctKeys, FreshIds-serve,
}

still_open : (s x : TaskStatus) → is_terminal x ≡ false → is_terminal s ≡ true → s ≢ x
still_open s x e h = ground arith

-- No step leaves a terminal status, or changes what the approval of a terminal task fixed.
terminal_step :
    (env : Env) (t u : ResponseTask)
    → is_terminal t.status ≡ true
    → TaskStep env t u
    → (u.status ≡ t.status) × SameContent t u
unfolding is_terminal
terminal_step env t u h (edited _ e) = absurd (still_open _ draft refl h e.0)
terminal_step env t u h (submitted _ e _) = absurd (still_open _ draft refl h e.0)
terminal_step env t u h (returned _ e) = absurd (still_open _ pending_approval refl h e.0)
terminal_step env t u h (approved _ e) = absurd (still_open _ pending_approval refl h e.0)
terminal_step env t u h (progressed _ e _) =
    absurd (ground (arith, e.0, terminal_has_no_exit t.status u.status h))
terminal_step env t u h (amended _ e c) = (e, c)

content_trans : (t u v : ResponseTask) → SameContent t u → SameContent u v → SameContent t v
content_trans t u v h k = (k.0 ∙ h.0, k.1 ∙ h.1, k.2 ∙ h.2)

terminal-Descends :
    (env : Env) (t u : ResponseTask)
    → is_terminal t.status ≡ true
    → Descends env t u
    → (u.status ≡ t.status) × SameContent t u
terminal-Descends env t u h same = (refl, (refl, refl, refl))
terminal-Descends env t v h (more {u = u} d step) =
    let (e, c) = terminal-Descends env t u h d in
    let (e', c') = terminal_step env u v (subst (λ x. is_terminal x ≡ true) (sym e) h) step in
    (e' ∙ e, content_trans t u v c c')

-- Where no two tasks have one key and the keys of later tasks are new, a stored task that is
-- completed, waived or cancelled keeps its status and its payload, whatever calls follow.
pub serve_all-terminal :
    (env : Env) (k : Ident) (t : ResponseTask) (cs : List Call) (s : Store)
    → DistinctKeys s.tasks
    → FreshIds env s
    → find_task k s.tasks ≡ some t
    → is_terminal t.status ≡ true
    → (u : ResponseTask) × (find_task k (serve_all env cs s).tasks ≡ some u)
      × (u.status ≡ t.status)
      × (payload_of u ≡ payload_of t)
serve_all-terminal env k t cs s keys fresh stored over =
    let (u, e, d) = serve_all-Descends env k t cs s keys fresh stored in
    let (status, content) = terminal-Descends env t u over d in (u, e, status, content.0)

-- The statuses that a task has after its approval, unless it was called off.
unfoldable pub is_released : TaskStatus → Bool
is_released draft = false
is_released pending_approval = false
is_released waived = false
is_released cancelled = false
is_released _ = true

-- The task is as it was approved.
abbrev pub IsFixed : Env → ResponseTask → Type 0
IsFixed env t =
    (t.approval_payload_hash ≡ some (task_payload_hash env t))
    × (t.approved_version ≡ some t.version)

abbrev pub AllFixed : Env → List ResponseTask → Type 0
AllFixed env l =
    (k : Ident) (t : ResponseTask)
    → find_task k l ≡ some t
    → is_released t.status ≡ true
    → IsFixed env t

release_back :
    (s t : TaskStatus)
    → can_transition s t ≡ true
    → is_released t ≡ true
    → is_drafting t ≡ false
    → is_released s ≡ true
unfolding can_transition is_released
release_back draft t c r d = ground arith
release_back pending_approval t c r d = ground arith
release_back waived t c r d = ground arith
release_back cancelled t c r d = ground arith
release_back _ t c r d = refl

unreleased : (s x : TaskStatus) → is_released x ≡ false → is_released s ≡ true → s ≢ x
unreleased s x e h = ground arith

same-IsFixed : (env : Env) (t u : ResponseTask) → SameContent t u → IsFixed env t → IsFixed env u
same-IsFixed env t u c h = (
  c.1 ∙ h.0 ∙ ap (λ p. some (env.payload_digest p)) (sym c.0),
  c.2 ∙ h.1 ∙ ap (λ p. some p.version) (sym c.0),
)

IsFixed-step :
    (env : Env) (t u : ResponseTask)
    → (is_released t.status ≡ true → IsFixed env t)
    → TaskStep env t u
    → is_released u.status ≡ true
    → IsFixed env u
unfolding is_released
IsFixed-step env t u h (edited _ e) r = absurd (unreleased _ draft refl r e.1)
IsFixed-step env t u h (submitted _ e _) r = absurd (unreleased _ pending_approval refl r e.1)
IsFixed-step env t u h (returned _ e) r = absurd (unreleased _ draft refl r e.1)
IsFixed-step env t u h (approved _ e) r = (
  e.3 ∙ ap (λ p. some (env.payload_digest p)) (sym e.2),
  e.4 ∙ ap (λ p. some p.version) (sym e.2),
)
IsFixed-step env t u h (progressed _ e c) r =
    same-IsFixed env t u c (h (release_back _ _ e.0 r e.1))
IsFixed-step env t u h (amended _ e c) r =
    same-IsFixed env t u c (h (subst (λ x. is_released x ≡ true) e r))

fixed_put :
    (env : Env) (a b : ResponseTask) (l : List ResponseTask)
    → find_task a.task_id l ≡ some a
    → TaskStep env a b
    → AllFixed env l
    → AllFixed env (put_task b l)
fixed_put env a b l found step h k t stored r = elim (Bool-cases (b.task_id == k)) [
  | inl e ↦
      let is_b : b ≡ t = ground (arith, find_task-put_task k b l) in
      subst (IsFixed env) is_b (
        IsFixed-step env a b (h a.task_id a found) step
          (subst (λ x. is_released x.status ≡ true) (sym is_b) r))
  | inr e ↦ h k t (ground (arith, find_task-put_task k b l)) r
]

Evolves-AllFixed :
    (env : Env) (l m : List ResponseTask) → Evolves env l m → AllFixed env l → AllFixed env m
Evolves-AllFixed env l m still h = h
Evolves-AllFixed env l n (stepped {m = m} so_far a b found step e) h =
    subst (AllFixed env) (sym e)
      (fixed_put env a b m found step (Evolves-AllFixed env l m so_far h))

draft_put :
    (env : Env) (u : ResponseTask) (l : List ResponseTask)
    → u.status ≡ draft
    → AllFixed env l
    → AllFixed env (put_task u l)
unfolding is_released
draft_put env u l e h k t stored r = elim (Bool-cases (u.task_id == k)) [
  | inl is_new ↦ absurd (ground (arith, find_task-put_task k u l))
  | inr other ↦ h k t (ground (arith, find_task-put_task k u l)) r
]

Grows-AllFixed :
    (env : Env) (s s' : Store) → Grows env s s' → AllFixed env s.tasks → AllFixed env s'.tasks
Grows-AllFixed env s s' (evolved e) h = Evolves-AllFixed env s.tasks s'.tasks e h
Grows-AllFixed env s s' (added u new facts e) h =
    subst (AllFixed env) (sym e) (draft_put env u s.tasks facts.0 h)

serve_all-AllFixed :
    (env : Env) (cs : List Call) (s : Store)
    → DistinctKeys s.tasks
    → FreshIds env s
    → AllFixed env s.tasks
    → AllFixed env (serve_all env cs s).tasks
unfolding serve_all
serve_all-AllFixed env [] s keys fresh h = h
serve_all-AllFixed env (c ∷ cs) s keys fresh h =
    let s' = serve env c s in
    let done = serve-Grows env c s keys fresh.1 in
    serve_all-AllFixed env cs s' (Grows-DistinctKeys env s s' keys done)
      (FreshIds-serve env c s fresh done) (Grows-AllFixed env s s' done h)

intact_lem :
    (env : Env) (t : ResponseTask)
    → t.approval_payload_hash ≡ some (task_payload_hash env t)
    → payload_intact env t ≡ true
unfolding payload_intact is_ident
intact_lem env t h = ground arith

acknowledge_known :
    (env : Env) (k : Ident) (r : TaskActionRequest) (s : Store) (t : ResponseTask)
    → find_task k s.tasks ≡ some t
    → t.approval_payload_hash ≡ some (task_payload_hash env t)
    → (acknowledge_task env k r s).0 ≢ err payload_mismatch
unfolding acknowledge_task transition ◌>>=◌ get_task get_event task_event
acknowledge_known env k r s t e h = ground (arith, intact_lem env t h)

-- Where no two tasks have one key and the keys of later tasks are new: if every stored task in a
-- released status carries the hash of its payload and its version as those that were approved, then
-- after any sequence of calls every stored task in a released status does so too, and acknowledging
-- it never fails on the check of its payload.
pub serve_all-payload_intact :
    (env : Env) (cs : List Call) (s : Store) (k : Ident) (t : ResponseTask) (r : TaskActionRequest)
    → DistinctKeys s.tasks
    → FreshIds env s
    → AllFixed env s.tasks
    → find_task k (serve_all env cs s).tasks ≡ some t
    → is_released t.status ≡ true
    → (t.approval_payload_hash ≡ some (task_payload_hash env t))
      × (t.approved_version ≡ some t.version)
      × ((acknowledge_task env k r (serve_all env cs s)).0 ≢ err payload_mismatch)
serve_all-payload_intact env cs s k t r keys fresh h stored released =
    let (hash, version) = serve_all-AllFixed env cs s keys fresh h k t stored released in
    (hash, version, acknowledge_known env k r (serve_all env cs s) t stored hash)
