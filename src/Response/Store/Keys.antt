-- ===== src/Response/Store/Keys.antt =====
-- The primary key of the task table: no two rows have one task id.
use flood_agent.Base.{
  ◌≡◌, arith, ℕ, Bool, false, some, List, [], ◌∷◌, ◌++◌, ◌==◌, ltb, Ident, All, filter_by,
  insert_on, sort_on, Bool-cases, inl, inr, All-filter_by, All-insert_on, All-sort_on, All-append,
  All-reverse,
}
use mathlib.Core.List.{reverse, reverse-cons}
use flood_agent.Response.Task.{ResponseTask}
use flood_agent.Response.Store.{find_task, put_task, list_tasks}
use flood_agent.Response.Store.Laws.{find_task-put_task}

abbrev pub Differ : ResponseTask → ResponseTask → Type 0
Differ t u = (u.task_id == t.task_id) ≡ false

abbrev pub DistinctKeys : List ResponseTask → Type 0
DistinctKeys [] = Unit
DistinctKeys (t ∷ ts) = All (Differ t) ts × DistinctKeys ts

-- Each of the tasks is what the table holds under its key.
abbrev pub AllStored : List ResponseTask → List ResponseTask → Type 0
AllStored l ts = All (λ t. find_task t.task_id l ≡ some t) ts

Differ-sym : (t u : ResponseTask) → Differ t u → Differ u t
Differ-sym t u h = ground arith

All-map :
    (P Q : ResponseTask → Type 0) (l : List ResponseTask)
    → ((t : ResponseTask) → P t → Q t)
    → All P l
    → All Q l
All-map P Q [] f h = tt
All-map P Q (t ∷ l) f h = (f t h.0, All-map P Q l f h.1)

All-both :
    (P Q R : ResponseTask → Type 0) (l : List ResponseTask)
    → ((t : ResponseTask) → P t → Q t → R t)
    → All P l
    → All Q l
    → All R l
All-both P Q R [] f h k = tt
All-both P Q R (t ∷ l) f h k = (f t h.0 k.0, All-both P Q R l f h.1 k.1)

filter_by-DistinctKeys :
    (p : ResponseTask → Bool) (l : List ResponseTask)
    → DistinctKeys l
    → DistinctKeys (filter_by p l)
filter_by-DistinctKeys p [] h = tt
filter_by-DistinctKeys p (t ∷ l) h = elim (Bool-cases (p t)) [
  | inl e ↦ rw e (All-filter_by (Differ t) p l h.0, filter_by-DistinctKeys p l h.1)
  | inr e ↦ rw e (filter_by-DistinctKeys p l h.1)
]

insert_on-DistinctKeys :
    (key : ResponseTask → ℕ) (t : ResponseTask) (l : List ResponseTask)
    → All (Differ t) l
    → DistinctKeys l
    → DistinctKeys (insert_on key t l)
insert_on-DistinctKeys key t [] a h = (tt, tt)
insert_on-DistinctKeys key t (u ∷ l) a h = elim (Bool-cases (ltb (key u) (key t))) [
  | inl e ↦ rw e (
    All-insert_on (Differ u) key t l (Differ-sym t u a.0) h.0,
    insert_on-DistinctKeys key t l a.1 h.1,
  )
  | inr e ↦ rw e (a, h)
]

sort_on-DistinctKeys :
    (key : ResponseTask → ℕ) (l : List ResponseTask) → DistinctKeys l → DistinctKeys (sort_on key l)
sort_on-DistinctKeys key [] h = tt
sort_on-DistinctKeys key (t ∷ l) h =
    insert_on-DistinctKeys key t (sort_on key l) (All-sort_on (Differ t) key l h.0)
      (sort_on-DistinctKeys key l h.1)

append-DistinctKeys :
    (l : List ResponseTask) (t : ResponseTask)
    → DistinctKeys l
    → All (Differ t) l
    → DistinctKeys (l ++ t ∷ [])
append-DistinctKeys [] t h a = (tt, tt)
append-DistinctKeys (u ∷ l) t h a =
    (All-append (Differ u) l t h.0 (Differ-sym t u a.0), append-DistinctKeys l t h.1 a.1)

reverse-DistinctKeys : (l : List ResponseTask) → DistinctKeys l → DistinctKeys (reverse l)
reverse-DistinctKeys [] h = tt
reverse-DistinctKeys (t ∷ l) h =
    rw (reverse-cons t l) (
      append-DistinctKeys (reverse l) t (reverse-DistinctKeys l h.1) (All-reverse (Differ t) l h.0))

pub list_tasks-DistinctKeys :
    (e : Ident) (l : List ResponseTask) → DistinctKeys l → DistinctKeys (list_tasks e l)
list_tasks-DistinctKeys e l h =
    reverse-DistinctKeys
      (sort_on (λ t. t.updated_at) (reverse (filter_by (λ t. t.event_id == e) l)))
      (sort_on-DistinctKeys (λ t. t.updated_at) (reverse (filter_by (λ t. t.event_id == e) l))
        (reverse-DistinctKeys (filter_by (λ t. t.event_id == e) l)
          (filter_by-DistinctKeys (λ t. t.event_id == e) l h)))

stored_later :
    (x : ResponseTask) (l ts : List ResponseTask)
    → AllStored l ts
    → All (Differ x) ts
    → AllStored (x ∷ l) ts
stored_later x l ts h a =
    All-both (λ t. find_task t.task_id l ≡ some t) (Differ x)
      (λ t. find_task t.task_id (x ∷ l) ≡ some t) ts (λ t found d. ground arith) h a

all_stored : (l : List ResponseTask) → DistinctKeys l → AllStored l l
all_stored [] h = tt
all_stored (t ∷ l) h = (ground arith, stored_later t l l (all_stored l h.1) h.0)

pub list_tasks-AllStored :
    (e : Ident) (l : List ResponseTask) → DistinctKeys l → AllStored l (list_tasks e l)
list_tasks-AllStored e l h =
    All-reverse (λ t. find_task t.task_id l ≡ some t) _
      (All-sort_on (λ t. find_task t.task_id l ≡ some t) (λ t. t.updated_at) _
        (All-reverse (λ t. find_task t.task_id l ≡ some t) _
          (All-filter_by (λ t. find_task t.task_id l ≡ some t) _ l (all_stored l h))))

-- Writing another row leaves these rows.
pub put_task-AllStored :
    (u : ResponseTask) (l ts : List ResponseTask)
    → All (Differ u) ts
    → AllStored l ts
    → AllStored (put_task u l) ts
put_task-AllStored u l ts a h =
    All-both (λ t. find_task t.task_id l ≡ some t) (Differ u)
      (λ t. find_task t.task_id (put_task u l) ≡ some t) ts
      (λ t found d. ground (arith, find_task-put_task t.task_id u l)) h a

All-put_task :
    (P : ResponseTask → Type 0) (u : ResponseTask) (l : List ResponseTask)
    → P u
    → All P l
    → All P (put_task u l)
All-put_task P u [] h k = (h, tt)
All-put_task P u (t ∷ l) h k = elim (Bool-cases (t.task_id == u.task_id)) [
  | inl e ↦ rw e (h, k.1)
  | inr e ↦ rw e (k.0, All-put_task P u l h k.1)
]

pub put_task-DistinctKeys :
    (u : ResponseTask) (l : List ResponseTask) → DistinctKeys l → DistinctKeys (put_task u l)
put_task-DistinctKeys u [] h = (tt, tt)
put_task-DistinctKeys u (t ∷ l) h = elim (Bool-cases (t.task_id == u.task_id)) [
  | inl e ↦ rw e (All-map (Differ t) (Differ u) l (λ x d. ground arith) h.0, h.1)
  | inr e ↦ rw e (All-put_task (Differ t) u l (Differ-sym u t e) h.0, put_task-DistinctKeys u l h.1)
]
