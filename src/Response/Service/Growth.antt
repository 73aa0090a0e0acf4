-- ===== src/Response/Service/Growth.antt =====
-- What a call does to the task table: steps of the lives of stored tasks, or a new draft.
use mathlib.Core.Path.{subst, sym}
use flood_agent.Base.{
  ◌≡◌, ◌≤◌, ◌<◌, inl, inr, arith, ℕ, none, some, [], ◌∷◌, List, Ident, ◌==◌, Bool-cases,
}
use flood_agent.Response.Enums.{draft}
use flood_agent.Response.Task.{ResponseTask}
use flood_agent.Response.Store.{Env, Store, tsk, find_task, put_task}
use flood_agent.Response.Store.Laws.{find_task-put_task}
use flood_agent.Response.Store.Keys.{DistinctKeys, put_task-DistinctKeys}
use flood_agent.Response.Exec.{save_object}
use flood_agent.Response.Timeline.{record_entry}
use flood_agent.Response.Lifecycle.{
  Evolves, still, stepped, TaskStep, edited, submitted, returned, approved, progressed, amended,
}
use flood_agent.Response.Ledger.{LedgerLaw}
use flood_agent.Response.Service.{Call, serve, serve_all}
use flood_agent.Response.Service.Kept.{serve_all-Keeps_always}

-- No two readings of `uuid4` give one task key.
abbrev pub NoRepeat : Env → Type 0
NoRepeat env = (m n : ℕ) → env.uuid tsk m ≡ env.uuid tsk n → m ≡ n

-- No stored task has a key that a later reading gives.
abbrev pub IsFresh : Env → Store → Type 0
IsFresh env s = (n : ℕ) → s.minted ≤ n → find_task (env.uuid tsk n) s.tasks ≡ none

-- The keys of new tasks are new.
abbrev pub FreshIds : Env → Store → Type 0
FreshIds env s = NoRepeat env × IsFresh env s

-- What a call makes of the task table: steps, or a draft under the next key of `uuid4`.
pub data Grows (env : Env) (s s' : Store) : Type 0 where
  evolved : Evolves env s.tasks s'.tasks → Grows env s s'
  added :
      (u : ResponseTask)
      → find_task u.task_id s.tasks ≡ none
      → (u.status ≡ draft) × (u.task_id ≡ env.uuid tsk s.minted) × (s.minted < s'.minted)
      → s'.tasks ≡ put_task u s.tasks
      → Grows env s s'

pub step-keys : (env : Env) (t u : ResponseTask) → TaskStep env t u → u.task_id ≡ t.task_id
step-keys env t u (edited k _) = k.task_id
step-keys env t u (submitted k _ _) = k.task_id
step-keys env t u (returned k _) = k.task_id
step-keys env t u (approved k _) = k.task_id
step-keys env t u (progressed k _ _) = k.task_id
step-keys env t u (amended k _ _) = k.task_id

pub Evolves-DistinctKeys :
    (env : Env) (l m : List ResponseTask) → DistinctKeys l → Evolves env l m → DistinctKeys m
Evolves-DistinctKeys env l m keys still = keys
Evolves-DistinctKeys env l n keys (stepped {m = m} so_far t u found step e) =
    subst DistinctKeys (sym e)
      (put_task-DistinctKeys u m (Evolves-DistinctKeys env l m keys so_far))

absent :
    (k : Ident) (t u : ResponseTask) (l : List ResponseTask)
    → u.task_id ≡ t.task_id
    → find_task t.task_id l ≡ some t
    → find_task k l ≡ none
    → find_task k (put_task u l) ≡ none
absent k t u l e found h = ground (arith, find_task-put_task k u l)

Evolves-missing :
    (env : Env) (k : Ident) (l m : List ResponseTask)
    → Evolves env l m
    → find_task k l ≡ none
    → find_task k m ≡ none
Evolves-missing env k l m still h = h
Evolves-missing env k l n (stepped {m = m} so_far t u found step e) h =
    let before = Evolves-missing env k l m so_far h in
    subst (λ x. find_task k x ≡ none) (sym e) (absent k t u m (step-keys env t u step) found before)

pub Grows-DistinctKeys :
    (env : Env) (s s' : Store) → DistinctKeys s.tasks → Grows env s s' → DistinctKeys s'.tasks
Grows-DistinctKeys env s s' keys (evolved e) = Evolves-DistinctKeys env s.tasks s'.tasks keys e
Grows-DistinctKeys env s s' keys (added u new facts e) =
    subst DistinctKeys (sym e) (put_task-DistinctKeys u s.tasks keys)

minted_law : (env : Env) (n : ℕ) → LedgerLaw env (λ s. n ≤ s.minted)
unfolding record_entry
minted_law env n = record {
  waits = λ s t timeline objects later more h. omega arith;
  records = λ a s h. omega arith;
}

-- No call gives readings of `uuid4` back.
serve-minted : (env : Env) (c : Call) (s : Store) → s.minted ≤ (serve env c s).minted
unfolding save_object serve_all
serve-minted env c s =
    serve_all-Keeps_always env (λ t. s.minted ≤ t.minted) (minted_law env s.minted)
      (λ o. record { at = λ t h. h }) (c ∷ []) s (omega arith)

Grows-IsFresh :
    (env : Env) (s s' : Store)
    → FreshIds env s
    → s.minted ≤ s'.minted
    → Grows env s s'
    → IsFresh env s'
Grows-IsFresh env s s' (once, fresh) later (evolved e) n more =
    Evolves-missing env (env.uuid tsk n) s.tasks s'.tasks e (fresh n (omega arith))
Grows-IsFresh env s s' (once, fresh) later (added u new (is_draft, key, grown) e) n more =
    let before = fresh n (omega arith) in
    elim (Bool-cases (u.task_id == env.uuid tsk n)) [
      | inl same ↦ absurd (omega (arith, once s.minted n (ground (arith, key, same)), grown, more))
      | inr other ↦
          subst (λ l. find_task (env.uuid tsk n) l ≡ none) (sym e)
            (ground (arith, find_task-put_task (env.uuid tsk n) u s.tasks))
    ]

pub FreshIds-serve :
    (env : Env) (c : Call) (s : Store)
    → FreshIds env s
    → Grows env s (serve env c s)
    → FreshIds env (serve env c s)
FreshIds-serve env c s h g = (h.0, Grows-IsFresh env s (serve env c s) h (serve-minted env c s) g)
