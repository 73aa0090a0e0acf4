-- ===== src/Response/Store/Laws.antt =====
-- Laws of the task table: a row is found under its own key, and a write changes that key only.
use flood_agent.Base.{◌≡◌, some, List, [], ◌∷◌, arith, ◌==◌, if◌then◌else◌, Ident}
use flood_agent.Response.Task.{ResponseTask}
use flood_agent.Response.Store.{find_task, put_task}

pub find_task-key :
    (k : Ident) (ts : List ResponseTask) {t : ResponseTask}
    → find_task k ts ≡ some t
    → t.task_id ≡ k
find_task-key k [] h = ground arith
find_task-key k (x ∷ xs) {t} h = ground (arith, find_task-key k xs {t = t})

pub find_task-put_task :
    (k : Ident) (u : ResponseTask) (ts : List ResponseTask)
    → find_task k (put_task u ts) ≡ (if u.task_id == k then some u else find_task k ts)
find_task-put_task k u [] = ground arith
find_task-put_task k u (x ∷ xs) = ground (arith, find_task-put_task k u xs)
