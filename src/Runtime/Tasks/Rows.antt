-- ===== src/Runtime/Tasks/Rows.antt =====
-- Looking up and saving rows of the task table.
use multiagents.Prelude.{◌≡◌, refl, true, false, some, List, [], ◌∷◌, String, str_eq_iff, arith}
use multiagents.Runtime.Tasks.{
  AgentTask, is_task, find_task, save_task, completed, complete_task, get_task_status,
  completed_status,
}

-- A row that is saved is found in the place of the row with its key, and no other key sees it.
pub find-save_self :
    (a t : String) (new row : AgentTask) (rows : List AgentTask)
    → new.artifact_id ≡ a
    → new.target_agent ≡ t
    → find_task a t rows ≡ some row
    → find_task a t (save_task new rows) ≡ some new
unfolding find_task save_task
find-save_self a t new row [] p q h = ground arith
find-save_self a t new row (r ∷ rows) p q h = ground (
  arith,
  find-save_self a t new row rows,
  str_eq_iff new.artifact_id a,
  str_eq_iff new.target_agent t,
  p,
  q,
)

pub find-save_ne :
    (a t : String) (new : AgentTask) (rows : List AgentTask)
    → is_task a t new ≡ false
    → find_task a t (save_task new rows) ≡ find_task a t rows
unfolding find_task save_task
find-save_ne a t new [] h = refl
find-save_ne a t new (r ∷ rows) h = ground (
  arith,
  find-save_ne a t new rows,
  str_eq_iff r.artifact_id a,
  str_eq_iff r.target_agent t,
  str_eq_iff new.artifact_id a,
  str_eq_iff new.target_agent t,
  str_eq_iff r.artifact_id new.artifact_id,
  str_eq_iff r.target_agent new.target_agent,
)

-- the row that is found has the key
pub find-is_task :
    (a t : String) (row : AgentTask) (rows : List AgentTask)
    → find_task a t rows ≡ some row
    → (row.artifact_id ≡ a) × (row.target_agent ≡ t)
unfolding find_task
find-is_task a t row [] h = ground arith
find-is_task a t row (r ∷ rows) h =
    ground
      (arith, find-is_task a t row rows, str_eq_iff r.artifact_id a, str_eq_iff r.target_agent t)

-- what a completion does to a task that is there, and the status that is read back
pub complete_task-found :
    (a t status error : String) (row : AgentTask) (rows : List AgentTask)
    → find_task a t rows ≡ some row
    → complete_task false a t status error rows
      ≡ (true, save_task (completed row status error) rows)
unfolding complete_task
complete_task-found a t status error row rows h = rw h

pub get_task_status-completed :
    (a t status error : String) (row : AgentTask) (rows : List AgentTask)
    → find_task a t rows ≡ some row
    → get_task_status false a t (save_task (completed row status error) rows)
      ≡ some (completed_status row status)
unfolding get_task_status
get_task_status-completed a t status error row rows h =
    let (p, q) = find-is_task a t row rows h in
    rw (find-save_self a t (completed row status error) row rows p q h)
