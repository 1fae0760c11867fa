-- ===== src/Runtime/Worker/Tests.antt =====
-- A worker that answers one kind of request and fails on another, and the theorems at its runs.
use multiagents.Prelude.{◌≡◌, refl, Bool, true, false, none, List, [], ◌∷◌, String, if◌then◌else◌}
use multiagents.Exec.{ok, err, pure}
use multiagents.Runtime.Tasks.{
  AgentTask, find_task, save_task, acquire_task_lease, complete_task, get_task_status,
  attempt_limit, is_terminal, completed_status,
}
use multiagents.Runtime.Queue.{claim_artifact, mark_success, mark_failure}
use multiagents.Runtime.Queue.Freed.{IsFree}
use multiagents.Runtime.Worker.{
  ArtifactEnvelope, Worker, Chances, WorkerState, claim, consume_request_artifact, poll_once,
  value_error,
}
use multiagents.Runtime.Worker.Released.{poll_once_frees, consume_request_artifact_frees}

abbrev task : String → AgentTask
task id = record {
  artifact_id = id;
  artifact_type = "Plan";
  source_agent = "MAIN";
  target_agent = "OSA";
  session_id = none;
  snapshot_id = none;
  correlation_id = none;
  status = "queued";
  lease_owner = none;
  lease_expires_at = none;
  attempts = 0;
  max_attempts = 2;
  last_error = none;
}

-- the payload of a request says whether the handler fails
abbrev request : String → Bool → ArtifactEnvelope Bool
request id fails = record {
  artifact_id = id;
  artifact_type = "Plan";
  source_agent = "MAIN";
  target_agent = "OSA";
  session_id = "s";
  snapshot_id = "";
  correlation_id = "c";
  upstream_artifact_ids = [];
  payload = fails;
}

-- the world is the list of the responses that were written
abbrev osa : Worker (List String) Bool Unit
osa = record {
  queue = record { agent_name = "OSA"; lease_seconds = 60 };
  agent_name = "OSA";
  expected_request_type = "Plan";
  response_artifact_type = "PlanResult";
  cache_received = λ e. pure tt;
  handle_artifact = λ e w. if e.payload then (err (value_error ("boom" ∷ [])), w) else (ok tt, w);
  build_response_payload = λ r. ok false;
  write_response = λ e w. (ok e.artifact_id, e.artifact_id ∷ w);
  cache_produced = λ e. pure tt;
}

abbrev chances : Chances
chances = record {
  claim_uuid = "u1";
  response_id = "r1";
  now = 100;
  claim_fails = false;
  success_fails = false;
  failure_fails = false;
  status_fails = false;
}

abbrev idle : WorkerState (List String)
idle = record {
  queue_state = record {
    tasks = task "a1" ∷ task "a2" ∷ [];
    leases = [];
    failures = [];
    dead_letter = [];
  };
  world = [];
}

table : Unit {0}
unfolding find_task save_task acquire_task_lease complete_task get_task_status attempt_limit
    is_terminal completed_status claim_artifact mark_success mark_failure
table = tt

answered : (consume_request_artifact osa chances (request "a1" false) idle).0 ≡ ok "r1"
unfolding consume_request_artifact table
answered = refl

-- a failure of the handler leaves its note, and goes on
failed :
    (consume_request_artifact osa chances (request "a1" true) idle).0
    ≡ err (value_error ("boom" ∷ []))
unfolding consume_request_artifact table
failed = refl

was_claimed : (claim osa chances (request "a1" true) idle.queue_state).0 ≡ true
unfolding claim table
was_claimed = refl

consume_request_artifact_frees_example :
    IsFree "a1" (consume_request_artifact osa chances (request "a1" true) idle).1.queue_state
consume_request_artifact_frees_example =
    consume_request_artifact_frees osa chances (request "a1" true) idle refl refl was_claimed

poll_once_frees_example :
    IsFree "a2"
      (poll_once osa
        ((chances, request "a2" false) ∷ (chances, request "a1" true) ∷ [])
        idle).1.queue_state
unfolding table
poll_once_frees_example =
    poll_once_frees osa "a2" ((chances, request "a2" false) ∷ (chances, request "a1" true) ∷ [])
      idle refl
