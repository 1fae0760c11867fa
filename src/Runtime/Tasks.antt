-- ===== src/Runtime/Tasks.antt =====
-- src/shared/runtime/storage/runtime_store.py: the task table behind `RuntimePersistence`. A method
-- is one transaction on the table. Its argument `fails` says that the database raises within it:
-- then the transaction is rolled back and the method returns False. Times are in seconds.
pub mod Rows
pub mod Events
pub mod Leases
pub mod Attempts
use multiagents.Prelude.{
  ℕ, ◌+◌, max, Bool, true, false, not, ◌&&◌, ◌||◌, Option, none, some, List, [], ◌∷◌, String,
  str_eq, is_empty, text_or_none, strip, lower, ltb, leb, ◌==◌, if◌then◌else◌,
}

-- A row of `agent_task`. The table has at most one for each artifact and target.
pub record AgentTask : Type 0 where
  pub artifact_id : String
  pub artifact_type : String
  pub source_agent : String
  pub target_agent : String
  pub session_id : Option String
  pub snapshot_id : Option String
  pub correlation_id : Option String
  pub status : String
  pub lease_owner : Option String
  pub lease_expires_at : Option ℕ
  pub attempts : ℕ
  pub max_attempts : ℕ
  pub last_error : Option String

abbrev pub is_task : String → String → AgentTask → Bool
is_task artifact target row = str_eq row.artifact_id artifact && str_eq row.target_agent target

-- the query with `.first()`
unfoldable pub find_task : String → String → List AgentTask → Option AgentTask
find_task artifact target [] = none
find_task artifact target (row ∷ rows) =
    if is_task artifact target row then some row else find_task artifact target rows

-- the row that the query found, written back at its place
unfoldable pub save_task : AgentTask → List AgentTask → List AgentTask
save_task new [] = []
save_task new (row ∷ rows) =
    if is_task new.artifact_id new.target_agent row then new ∷ rows else row ∷ save_task new rows

-- The arguments of `enqueue_task` that a row keeps.
pub record TaskRequest : Type 0 where
  pub artifact_id : String
  pub artifact_type : String
  pub source_agent : String
  pub target_agent : String
  pub session_id : String
  pub snapshot_id : String
  pub correlation_id : String

new_task : TaskRequest → ℕ → AgentTask
new_task r max_attempts = record {
  artifact_id = r.artifact_id;
  artifact_type = r.artifact_type;
  source_agent = r.source_agent;
  target_agent = r.target_agent;
  session_id = text_or_none r.session_id;
  snapshot_id = text_or_none r.snapshot_id;
  correlation_id = text_or_none r.correlation_id;
  status = "queued";
  lease_owner = none;
  lease_expires_at = none;
  attempts = 0;
  max_attempts = max 1 max_attempts;
  last_error = none;
}

enqueue_row : TaskRequest → ℕ → List AgentTask → Option AgentTask → List AgentTask
unfolding new_task save_task
enqueue_row r max_attempts rows none = new_task r max_attempts ∷ rows
enqueue_row r max_attempts rows (some row) =
    save_task (record row { status = "queued"; last_error = none }) rows

unfoldable pub enqueue_task : Bool → TaskRequest → ℕ → List AgentTask → Bool × List AgentTask
unfolding enqueue_row find_task
enqueue_task fails r max_attempts rows =
    if is_empty r.artifact_id || is_empty r.target_agent || fails
    then (false, rows)
    else (true, enqueue_row r max_attempts rows (find_task r.artifact_id r.target_agent rows))

-- `row.lease_expires_at and row.lease_expires_at > now and row.lease_owner and
-- row.lease_owner != lease_owner`
unfoldable pub held_by_other : Option String → Option ℕ → String → ℕ → Bool
held_by_other (some holder) (some expires) owner now =
    ltb now expires && not (is_empty holder) && not (str_eq holder owner)
held_by_other _ _ owner now = false

-- `row.status in {"succeeded", "dead_letter"}`
unfoldable pub is_terminal : String → Bool
is_terminal status = str_eq status "succeeded" || str_eq status "dead_letter"

abbrev pub leased : AgentTask → String → ℕ → ℕ → AgentTask
leased row owner seconds now = record row {
  status = "running";
  lease_owner = some owner;
  lease_expires_at = some (now + max 1 seconds);
  attempts = row.attempts + 1;
}

lease_row : String → ℕ → ℕ → List AgentTask → Option AgentTask → Bool × List AgentTask
unfolding held_by_other is_terminal save_task
lease_row owner seconds now rows none = (false, rows)
lease_row owner seconds now rows (some row) =
    if is_terminal row.status || held_by_other row.lease_owner row.lease_expires_at owner now
    then (false, rows)
    else (true, save_task (leased row owner seconds now) rows)

unfoldable pub acquire_task_lease :
    Bool → String → String → String → ℕ → ℕ → List AgentTask → Bool × List AgentTask
unfolding lease_row find_task
acquire_task_lease fails artifact target owner seconds now rows =
    if is_empty artifact || is_empty target || is_empty owner || fails
    then (false, rows)
    else lease_row owner seconds now rows (find_task artifact target rows)

-- `int(row.max_attempts or 3)`
unfoldable pub attempt_limit : ℕ → ℕ
attempt_limit n = if n == 0 then 3 else n

-- the status that a completion writes
unfoldable pub completed_status : AgentTask → String → String
unfolding attempt_limit strip lower
completed_status row status =
    let normalized = lower (strip status) in
    if str_eq normalized "failed" && leb (attempt_limit row.max_attempts) row.attempts
    then "dead_letter"
    else normalized

abbrev pub completed : AgentTask → String → String → AgentTask
completed row status error = record row {
  status = completed_status row status;
  last_error = text_or_none error;
  lease_owner = none;
  lease_expires_at = none;
}

complete_row : String → String → List AgentTask → Option AgentTask → Bool × List AgentTask
unfolding completed_status save_task
complete_row status error rows none = (false, rows)
complete_row status error rows (some row) = (true, save_task (completed row status error) rows)

unfoldable pub complete_task :
    Bool → String → String → String → String → List AgentTask → Bool × List AgentTask
unfolding complete_row find_task
complete_task fails artifact target status error rows =
    if fails then (false, rows) else complete_row status error rows (find_task artifact target rows)

status_of : Option AgentTask → Option String
status_of none = none
status_of (some row) = some row.status

unfoldable pub get_task_status : Bool → String → String → List AgentTask → Option String
unfolding status_of find_task
get_task_status fails artifact target rows =
    if fails then none else status_of (find_task artifact target rows)
