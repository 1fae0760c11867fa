-- ===== src/Runtime/Queue.antt =====
-- src/shared/runtime/storage/queue.py: `FileTaskQueue`, the lease files of one agent over the task
-- table. File operations do not fail; a lease file that cannot be read holds `none`. The file clock
-- and the database clock are one, in seconds.
pub mod Claims
pub mod Freed
pub mod Exclusive
use multiagents.Prelude.{
  ℕ, ◌+◌, max, Bool, true, false, not, ◌&&◌, ◌||◌, Option, none, some, List, [], ◌∷◌, String,
  str_eq, strip, ltb, if◌then◌else◌,
}
use Prim.Native.String.{◌++◌}
use multiagents.Exec.{Result, ok, err, Exec, pure, raise, ◌>>=◌, ◌>>◌}
use multiagents.Runtime.Tasks.{AgentTask, acquire_task_lease, complete_task, get_task_status}

-- The payload of a lease file.
pub record Lease : Type 0 where
  pub artifact_id : String
  pub target_agent : String
  pub lease_owner : String
  pub expires_at : ℕ

-- The payload of a file in `failures` or `dead_letter`.
pub record FailureNote : Type 0 where
  pub artifact_id : String
  pub error : String
  pub target_agent : String

-- The queue's directories and the table that it shares with other queues. A directory holds one
-- file for each artifact, written over by a later one.
pub record QueueState : Type 0 where
  pub tasks : List AgentTask
  pub leases : List (String × Option Lease)
  pub failures : List (String × FailureNote)
  pub dead_letter : List (String × FailureNote)

pub record FileTaskQueue : Type 0 where
  pub agent_name : String
  pub lease_seconds : ℕ

-- the constructor's normalisation of its arguments
unfoldable pub new_queue : String → ℕ → FileTaskQueue
unfolding strip
new_queue agent_name lease_seconds = record {
  agent_name = strip agent_name;
  lease_seconds = max 1 lease_seconds;
}

-- Files by name: reading, writing over, and `unlink`.
module _ {A : Type 0} where
  unfoldable pub file : String → List (String × A) → Option A
  file name [] = none
  file name ((k, v) ∷ files) = if str_eq k name then some v else file name files

  unfoldable pub unlink : String → List (String × A) → List (String × A)
  unlink name [] = []
  unlink name ((k, v) ∷ files) =
      let rest = unlink name files in if str_eq k name then rest else (k, v) ∷ rest

  unfoldable pub write_file : String → A → List (String × A) → List (String × A)
  unfolding unlink
  write_file name v files = (name, v) ∷ unlink name files

-- a missing or unreadable file gives no lease
unfoldable pub read_lease : String → List (String × Option Lease) → Option Lease
unfolding file
read_lease artifact leases = elim (file artifact leases) [ none ↦ none | some content ↦ content ]

-- `current and self._lease_is_active(current)`
unfoldable pub lease_is_active : Option Lease → ℕ → Bool
lease_is_active none now = false
lease_is_active (some lease) now = ltb now lease.expires_at

-- `str(uuid4())` is the argument `uuid`; `fails` is the database's
unfoldable pub claim_artifact :
    FileTaskQueue → Bool → String → String → ℕ → QueueState → Bool × QueueState
unfolding read_lease lease_is_active write_file
claim_artifact q fails artifact uuid now s =
    let owner = q.agent_name ++ "-" ++ uuid in
    let (leased, tasks) =
      acquire_task_lease fails artifact q.agent_name owner q.lease_seconds now s.tasks in
    if lease_is_active (read_lease artifact s.leases) now
    then (false, s)
    else if not leased
    then (false, record s { tasks = tasks })
    else (
      true,
      record s {
        tasks = tasks;
        leases =
            write_file artifact
              (some (record {
                artifact_id = artifact;
                target_agent = q.agent_name;
                lease_owner = owner;
                expires_at = now + q.lease_seconds;
              }))
              s.leases;
      },
    )

-- The `RuntimeError` of a completion that the table refused.
pub data QueueError : Type 0 where
  not_marked : String → QueueError

unfoldable pub mark_success : FileTaskQueue → Bool → String → Exec QueueState QueueError Unit
unfolding unlink
mark_success q fails artifact s =
    let (completed, tasks) = complete_task fails artifact q.agent_name "succeeded" "" s.tasks in
    let s' : QueueState = record s { tasks = tasks; leases = unlink artifact s.leases } in
    if completed then (ok tt, s') else (err (not_marked artifact), s')

abbrev is_dead_letter : Option String → Bool
is_dead_letter none = false
is_dead_letter (some status) = str_eq status "dead_letter"

-- the note goes to `dead_letter` or to `failures`, by the status that the table has then
pub note_error : Bool → String → FailureNote → QueueState → QueueState
unfolding write_file
note_error dead artifact note s =
    if dead
    then record s { dead_letter = write_file artifact note s.dead_letter }
    else record s { failures = write_file artifact note s.failures }

-- `fails` and `blind` say that the database raises in the completion and in the query behind it
unfoldable pub mark_failure :
    FileTaskQueue → Bool → Bool → String → String → Exec QueueState QueueError Unit
unfolding unlink note_error
mark_failure q fails blind artifact error s =
    let (completed, tasks) = complete_task fails artifact q.agent_name "failed" error s.tasks in
    let s' : QueueState = record s { tasks = tasks; leases = unlink artifact s.leases } in
    let note : FailureNote = record {
      artifact_id = artifact;
      error = error;
      target_agent = q.agent_name;
    } in
    if completed
    then (
      ok tt,
      note_error (is_dead_letter (get_task_status blind artifact q.agent_name tasks)) artifact note
          s',
    )
    else (err (not_marked artifact), s')
