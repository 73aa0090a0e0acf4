-- ===== src/Response/Service/Life.antt =====
-- The life of a task over a whole run of the service.
use mathlib.Core.Path.{subst, sym}
use flood_agent.Base.{◌≡◌, inl, inr, arith, none, some, List, [], ◌∷◌, Ident, ◌==◌, Bool-cases}
use flood_agent.Response.Task.{ResponseTask}
use flood_agent.Response.Store.{Env, Store, find_task, put_task}
use flood_agent.Response.Store.Laws.{find_task-put_task}
use flood_agent.Response.Lifecycle.{Evolves, still, stepped, TaskStep}
use flood_agent.Response.Store.Keys.{DistinctKeys}
use flood_agent.Response.Service.Changes.{serve-Grows}
use flood_agent.Response.Service.Growth.{
  FreshIds, Grows, evolved, added, step-keys, Grows-DistinctKeys, FreshIds-serve,
}
use flood_agent.Response.Service.{Call, serve, serve_all}

-- `u` is what steps of its life make of the task `t`.
pub data Descends (env : Env) (t : ResponseTask) : ResponseTask → Type 0 where
  same : Descends env t t
  more : {u v : ResponseTask} → Descends env t u → TaskStep env u v → Descends env t v

abbrev Followed : Env → Ident → ResponseTask → List ResponseTask → Type 0
Followed env k t l = (u : ResponseTask) × (find_task k l ≡ some u) × Descends env t u

-- The task that the key `k` finds, which the step is made of, is the one that is followed.
stored_unique :
    (k i : Ident) (a u : ResponseTask) (l : List ResponseTask)
    → i ≡ k
    → find_task i l ≡ some a
    → find_task k l ≡ some u
    → u ≡ a
stored_unique k i a u l e found stored = ground arith

Followed-put :
    (env : Env) (k : Ident) (t a b : ResponseTask) (l : List ResponseTask)
    → find_task a.task_id l ≡ some a
    → TaskStep env a b
    → Followed env k t l
    → Followed env k t (put_task b l)
Followed-put env k t a b l found step (u, stored, d) = elim (Bool-cases (b.task_id == k)) [
  | inl e ↦ (
    b,
    ground (arith, find_task-put_task k b l),
    more
        (subst (Descends env t)
          (stored_unique k a.task_id a u l (ground (arith, step-keys env a b step)) found stored) d)
        step,
  )
  | inr e ↦ (u, ground (arith, find_task-put_task k b l), d)
]

Followed-serve :
    (env : Env) (k : Ident) (t : ResponseTask) (l m : List ResponseTask)
    → Evolves env l m
    → Followed env k t l
    → Followed env k t m
Followed-serve env k t l m still h = h
Followed-serve env k t l n (stepped {m = m} so_far a b found step e) h =
    subst (Followed env k t) (sym e)
      (Followed-put env k t a b m found step (Followed-serve env k t l m so_far h))

Followed-added :
    (env : Env) (k : Ident) (t u : ResponseTask) (l : List ResponseTask)
    → find_task u.task_id l ≡ none
    → Followed env k t l
    → Followed env k t (put_task u l)
Followed-added env k t u l new (v, stored, d) = elim (Bool-cases (u.task_id == k)) [
  | inl e ↦ absurd (ground arith)
  | inr e ↦ (v, ground (arith, find_task-put_task k u l), d)
]

Followed-Grows :
    (env : Env) (k : Ident) (t : ResponseTask) (s s' : Store)
    → Grows env s s'
    → Followed env k t s.tasks
    → Followed env k t s'.tasks
Followed-Grows env k t s s' (evolved e) h = Followed-serve env k t s.tasks s'.tasks e h
Followed-Grows env k t s s' (added u new facts e) h =
    subst (Followed env k t) (sym e) (Followed-added env k t u s.tasks new h)

Followed-all :
    (env : Env) (k : Ident) (t : ResponseTask) (cs : List Call) (s : Store)
    → DistinctKeys s.tasks
    → FreshIds env s
    → Followed env k t s.tasks
    → Followed env k t (serve_all env cs s).tasks
unfolding serve_all
Followed-all env k t [] s keys fresh h = h
Followed-all env k t (c ∷ cs) s keys fresh h =
    let s' = serve env c s in
    let done = serve-Grows env c s keys fresh.1 in
    Followed-all env k t cs s' (Grows-DistinctKeys env s s' keys done)
      (FreshIds-serve env c s fresh done) (Followed-Grows env k t s s' done h)

-- Refinement: whatever sequence of calls of `Call` is made from a store in which no two tasks have
-- one key, the keys that `uuid4` gives to later tasks are new, and the key `k` finds the task `t`,
-- the key still finds a task afterwards, and that task is what steps of the abstract life of a task
-- (`TaskStep`) make of `t`. Calls that raise are included.
pub serve_all-Descends :
    (env : Env) (k : Ident) (t : ResponseTask) (cs : List Call) (s : Store)
    → DistinctKeys s.tasks
    → FreshIds env s
    → find_task k s.tasks ≡ some t
    → (u : ResponseTask) × (find_task k (serve_all env cs s).tasks ≡ some u) × Descends env t u
serve_all-Descends env k t cs s keys fresh h = Followed-all env k t cs s keys fresh (t, h, same)
