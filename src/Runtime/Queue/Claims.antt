-- ===== src/Runtime/Queue/Claims.antt =====
-- Claims, and what is left in the directories when a task ends.
use multiagents.Prelude.{
  ℕ, ◌<◌, ◌≡◌, refl, Bool, true, false, none, some, List, [], ◌∷◌, String, str_eq, str_eq_iff, leb,
  ◌≤◌, Bool-cases, inl, inr, strip, lower, arith,
}
use multiagents.Exec.{Result, ok}
use multiagents.Runtime.Tasks.{
  AgentTask, find_task, save_task, completed, completed_status, attempt_limit,
}
use multiagents.Runtime.Tasks.Rows.{complete_task-found, get_task_status-completed}
use multiagents.Runtime.Queue.{
  FailureNote, QueueState, QueueError, FileTaskQueue, file, unlink, write_file, read_lease,
  lease_is_active, claim_artifact, mark_failure, note_error,
}

module _ {A : Type 0} where
  pub file-unlink :
      (name : String) (files : List (String × A)) → file name (unlink name files) ≡ none
  unfolding file unlink
  file-unlink name [] = refl
  file-unlink name ((k, v) ∷ files) = ground (arith, file-unlink name files)

  file-write :
      (name : String) (v : A) (files : List (String × A))
      → file name (write_file name v files) ≡ some v
  unfolding file write_file
  file-write name v files = ground (arith, str_eq_iff name name)

pub active_refused :
    (q : FileTaskQueue) (fails : Bool) (artifact uuid : String) (now : ℕ) (s : QueueState)
    → lease_is_active (read_lease artifact s.leases) now ≡ true
    → claim_artifact q fails artifact uuid now s ≡ (false, s)
unfolding claim_artifact
active_refused q fails artifact uuid now s h = rw h

-- The status that a failure writes is that of a dead letter exactly from the limit of attempts on.
dead_letter_iff :
    (row : AgentTask)
    → str_eq (completed_status row "failed") "dead_letter"
      ≡ leb (attempt_limit row.max_attempts) row.attempts
unfolding completed_status strip lower
dead_letter_iff row = elim (Bool-cases (leb (attempt_limit row.max_attempts) row.attempts)) [
  | inl spent ↦ rw spent refl
  | inr left ↦ rw left refl
]

-- What a failure leaves in the directories, `s` being the state before it.
pub record IsNoted (artifact : String) (note : FailureNote) (row : AgentTask) (s s' : QueueState)
    : Type 0 where
  pub freed : file artifact s'.leases ≡ none
  pub dead :
      attempt_limit row.max_attempts ≤ row.attempts
      → (file artifact s'.dead_letter ≡ some note) × (s'.failures ≡ s.failures)
  pub failed :
      row.attempts < attempt_limit row.max_attempts
      → (file artifact s'.failures ≡ some note) × (s'.dead_letter ≡ s.dead_letter)

-- A failure that the table records removes the lease file and writes one note: among the dead letters
-- if the task has as many attempts as its limit or more, the failures being left as they are, and
-- among the failures if it has fewer, the dead letters being left as they are.
pub mark_failure_notes :
    (q : FileTaskQueue) (artifact error : String) (row : AgentTask) (s : QueueState)
    → find_task artifact q.agent_name s.tasks ≡ some row
    → (s' : QueueState) × (mark_failure q false false artifact error s ≡ (ok tt, s'))
      × IsNoted artifact
          (record { artifact_id = artifact; error = error; target_agent = q.agent_name })
          row
          s
          s'
unfolding mark_failure
mark_failure_notes q artifact error row s h =
    rw (complete_task-found artifact q.agent_name "failed" error row s.tasks h) (
      rw (get_task_status-completed artifact q.agent_name "failed" error row s.tasks h)
        (rw (dead_letter_iff row) (by_limit _ refl)))
  where
    s1 : QueueState
    s1 = record s {
      tasks = save_task (completed row "failed" error) s.tasks;
      leases = unlink artifact s.leases;
    }

    note : FailureNote
    note = record { artifact_id = artifact; error = error; target_agent = q.agent_name }

    by_limit :
        (spent : Bool)
        → leb (attempt_limit row.max_attempts) row.attempts ≡ spent
        → (s' : QueueState) × (◌≡◌ {A = Result QueueError Unit × QueueState}
            (ok tt, note_error spent artifact note s1)
            (ok tt, s'))
          × IsNoted artifact note row s s'
    by_limit true spent = (
      note_error true artifact note s1,
      refl,
      record {
        freed = file-unlink artifact s.leases;
        dead = λ _. (file-write artifact note s.dead_letter, refl);
        failed = λ few. absurd (ground (arith, few, spent));
      },
    )
    by_limit false left = (
      note_error false artifact note s1,
      refl,
      record {
        freed = file-unlink artifact s.leases;
        dead = λ many. absurd (ground (arith, many, left));
        failed = λ _. (file-write artifact note s.failures, refl);
      },
    )
