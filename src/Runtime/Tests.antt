-- ===== src/Runtime/Tests.antt =====
-- The task table and the file queue on concrete inputs.
use multiagents.Prelude.{
  ◌≡◌, ◌≢◌, refl, sym, ◌∙◌, true, false, none, some, List, [], ◌∷◌, String, str_eq, str_eq_iff,
  strip, lower, arith,
}
use mathlib.Core.Bool.{false≢true}
use multiagents.Exec.{ok}
use multiagents.Runtime.Tasks.{
  AgentTask, TaskRequest, find_task, save_task, enqueue_task, acquire_task_lease, complete_task,
  get_task_status, attempt_limit, is_terminal, completed_status,
}
use multiagents.Runtime.Tasks.Events.{TaskEvent, apply_events, IsLeased}
use multiagents.Runtime.Tasks.Leases.{lease_exclusive, stale_completion}
use multiagents.Runtime.Tasks.Attempts.{
  Failure, fail_times, IsOpen, IsDead, retries_end, retries_go_on,
}
use multiagents.Runtime.Queue.{QueueState, FileTaskQueue, new_queue, claim_artifact, mark_failure}
use multiagents.Runtime.Queue.Claims.{IsNoted, mark_failure_notes}
use multiagents.Runtime.Queue.Exclusive.{
  QueueEvent, claims, fails_with, table_becomes, after_events, claim_exclusive,
}

table : Unit {0}
unfolding enqueue_task find_task save_task acquire_task_lease complete_task get_task_status
    attempt_limit is_terminal completed_status
table = tt

abbrev request : TaskRequest
request = record {
  artifact_id = "a1";
  artifact_type = "PlanningRequest";
  source_agent = "MAIN";
  target_agent = "OSA";
  session_id = "s";
  snapshot_id = "";
  correlation_id = "c";
}

abbrev queued : AgentTask
queued = record {
  artifact_id = "a1";
  artifact_type = "PlanningRequest";
  source_agent = "MAIN";
  target_agent = "OSA";
  session_id = some "s";
  snapshot_id = none;
  correlation_id = some "c";
  status = "queued";
  lease_owner = none;
  lease_expires_at = none;
  attempts = 0;
  max_attempts = 2;
  last_error = none;
}

enqueued : (enqueue_task false request 2 []).1 ≡ queued ∷ []
unfolding table
enqueued = refl

abbrev running : AgentTask
running = record queued {
  status = "running";
  lease_owner = some "w1";
  lease_expires_at = some 160;
  attempts = 1;
}

acquired : acquire_task_lease false "a1" "OSA" "w1" 60 100 (queued ∷ []) ≡ (true, running ∷ [])
unfolding table
acquired = refl

-- a second worker asks for the task, and the request is written again
abbrev meanwhile : List TaskEvent
meanwhile = TaskEvent.acquire false "a1" "OSA" "w2" 60 120 ∷ TaskEvent.enqueue false request 2 ∷ []

ne : (s t : String) → str_eq s t ≡ false → s ≢ t
ne s t h e = false≢true (sym h ∙ (str_eq_iff s t).1 e)

lease_exclusive_example :
    acquire_task_lease false "a1" "OSA" "w3" 60 159 (apply_events meanwhile (running ∷ []))
    ≡ (false, apply_events meanwhile (running ∷ []))
lease_exclusive_example =
    lease_exclusive "a1" "OSA" "w1" "w3" 60 100 (queued ∷ []) (running ∷ []) meanwhile false 60 159
      refl acquired ((omega arith, ne "w2" "w1" refl), (tt, tt)) (omega arith) (ne "w3" "w1" refl)

running-IsLeased : IsLeased "a1" "OSA" "w1" 160 (running ∷ [])
unfolding table
running-IsLeased = record { row = running; found = refl; owned = refl; until = refl }

still_open : is_terminal (completed_status running "failed") ≡ false
unfolding table strip lower
still_open = refl

stale_completion_example :
    (acquire_task_lease false "a1" "OSA" "w2" 60 120
      (complete_task false "a1" "OSA" "failed" "boom" (running ∷ [])).1).0
    ≡ true
unfolding running-IsLeased
stale_completion_example =
    stale_completion "a1" "OSA" "w1" "w2" "failed" "boom" 160 60 120 (running ∷ []) running-IsLeased
      refl still_open

abbrev boom : Failure
boom = record { owner = "w1"; seconds = 60; now = 0; error = "boom" }

queued-IsOpen : IsOpen "a1" "OSA" 2 0 (queued ∷ [])
unfolding table
queued-IsOpen = record {
  row = queued;
  found = refl;
  open_status = refl;
  free = refl;
  tried = refl;
  limited = refl;
}

retries_end_example :
    (rows' : List AgentTask) × (fail_times "a1" "OSA" (boom ∷ boom ∷ []) (queued ∷ []) ≡ some rows')
    × IsDead "a1" "OSA" rows'
    × (acquire_task_lease false "a1" "OSA" "w2" 60 9 rows' ≡ (false, rows'))
retries_end_example =
    retries_end "a1" "OSA" boom (boom ∷ []) 2 0 (queued ∷ []) false "w2" 60 9 refl
      (refl, (refl, tt)) refl queued-IsOpen

retries_go_on_example :
    (rows' : List AgentTask) × (fail_times "a1" "OSA" (boom ∷ []) (queued ∷ []) ≡ some rows')
    × IsOpen "a1" "OSA" 2 1 rows'
retries_go_on_example =
    retries_go_on "a1" "OSA" (boom ∷ []) 2 0 (queued ∷ []) refl (refl, tt) (omega arith)
      queued-IsOpen

abbrev osa : FileTaskQueue
osa = record { agent_name = "OSA"; lease_seconds = 60 }

osa_made : new_queue " OSA" 60 ≡ osa
unfolding new_queue
osa_made = refl

abbrev idle : QueueState
idle = record { tasks = queued ∷ []; leases = []; failures = []; dead_letter = [] }

abbrev claimed : QueueState
claimed = record idle {
  tasks = record running { lease_owner = some "OSA-u1" } ∷ [];
  leases =
      (
        "a1",
        some (record {
          artifact_id = "a1";
          target_agent = "OSA";
          lease_owner = "OSA-u1";
          expires_at = 160;
        }),
      )
      ∷ [];
}

first_claim : claim_artifact osa false "a1" "u1" 100 idle ≡ (true, claimed)
unfolding claim_artifact table
first_claim = refl

-- another worker's claim, a failure of another artifact, and a table that has lost its rows
abbrev others : List QueueEvent
others =
    claims osa true "a1" "u2" 120 ∷ fails_with osa false true "a2" "boom" ∷ table_becomes [] ∷ []

claim_exclusive_example :
    claim_artifact osa true "a1" "u3" 159 (after_events others claimed)
    ≡ (false, after_events others claimed)
claim_exclusive_example =
    claim_exclusive osa osa false true "a1" "u1" "u3" 100 159 idle claimed others first_claim
      ((λ _. omega arith), (refl, (tt, tt))) (omega arith)

claimed_row :
    find_task "a1" "OSA" claimed.tasks ≡ some (record running { lease_owner = some "OSA-u1" })
unfolding table
claimed_row = refl

mark_failure_notes_example :
    (s' : QueueState) × (mark_failure osa false false "a1" "boom" claimed ≡ (ok tt, s'))
    × IsNoted "a1"
        (record { artifact_id = "a1"; error = "boom"; target_agent = "OSA" })
        (record running { lease_owner = some "OSA-u1" })
        claimed
        s'
mark_failure_notes_example =
    mark_failure_notes osa "a1" "boom" (record running { lease_owner = some "OSA-u1" }) claimed
      claimed_row
