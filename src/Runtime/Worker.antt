-- ===== src/Runtime/Worker.antt =====
-- src/shared/runtime/worker.py: `consume_request_artifact` and `poll_once` of `ArtifactWorkerMixin`, over
-- the file queue. What a concrete worker defines, and the files besides the queue's, are arguments.
pub mod Released
mod Tests
use multiagents.Prelude.{
  contains, ℕ, Bool, true, false, not, ◌&&◌, ◌||◌, Option, none, some, List, [], ◌∷◌, String,
  str_eq, texts, if◌then◌else◌,
}
use Prim.Native.Char.{code}
use multiagents.Prelude.{◌==◌}
use multiagents.Exec.{Result, ok, err, Exec, pure, raise, try_then, ◌>>=◌, ◌>>◌}
use multiagents.Runtime.Queue.{
  QueueState, FileTaskQueue, QueueError, not_marked, claim_artifact, mark_success, mark_failure,
}

-- The fields of an envelope that the worker reads or writes.
pub record ArtifactEnvelope (P : Type 0) : Type 0 where
  pub artifact_id : String
  pub artifact_type : String
  pub source_agent : String
  pub target_agent : String
  pub session_id : String
  pub snapshot_id : String
  pub correlation_id : String
  pub upstream_artifact_ids : List String
  pub payload : P

-- An exception: whether it is a `RuntimeError`, and its `str`.
pub record WorkerError : Type 0 where
  pub is_runtime_error : Bool
  pub message : String

-- A worker: its queue, the types of its requests and responses, and what a concrete one does with a
-- world of files of its own.
pub record Worker (W P R : Type 0) : Type 0 where
  pub queue : FileTaskQueue
  pub agent_name : String
  pub expected_request_type : String
  pub response_artifact_type : String
  pub cache_received : ArtifactEnvelope P → Exec W WorkerError Unit
  pub handle_artifact : ArtifactEnvelope P → Exec W WorkerError R
  pub build_response_payload : R → Result WorkerError P
  pub write_response : ArtifactEnvelope P → Exec W WorkerError String
  pub cache_produced : ArtifactEnvelope P → Exec W WorkerError Unit

-- What is drawn or met while a request is consumed: the two `uuid4`, the clock, and whether the
-- database fails in the claim, in the completion, in the record of a failure and in the query behind it.
pub record Chances : Type 0 where
  pub claim_uuid : String
  pub response_id : String
  pub now : ℕ
  pub claim_fails : Bool
  pub success_fails : Bool
  pub failure_fails : Bool
  pub status_fails : Bool

pub record WorkerState (W : Type 0) : Type 0 where
  pub queue_state : QueueState
  pub world : W

abbrev pub runtime_error : List String → WorkerError
runtime_error parts = record { is_runtime_error = true; message = texts parts }

abbrev pub value_error : List String → WorkerError
value_error parts = record { is_runtime_error = false; message = texts parts }

-- the `RuntimeError` of a mark that the table refused
abbrev pub marked_error : String → QueueError → WorkerError
marked_error what (not_marked artifact) =
    runtime_error ("Failed to mark task " ∷ what ∷ " for artifact " ∷ artifact ∷ "." ∷ [])

module _ {W : Type 0} where
  abbrev pub lifted :
      {A : Type 0} → WorkerState W → Result WorkerError A × W → Result WorkerError A × WorkerState W
  lifted s (r, w) = (r, record s { world = w })

  -- code that leaves the queue alone
  unfoldable pub in_world : {A : Type 0} → Exec W WorkerError A → Exec (WorkerState W) WorkerError A
  in_world m s = lifted s (m s.world)

  abbrev pub queued :
      {A : Type 0}
      → String
      → WorkerState W
      → Result QueueError A × QueueState
      → Result WorkerError A × WorkerState W
  queued what s (ok a, q) = (ok a, record s { queue_state = q })
  queued what s (err e, q) = (err (marked_error what e), record s { queue_state = q })

  -- a mark of the queue, by the word that its error uses
  unfoldable pub in_queue :
      {A : Type 0} → String → Exec QueueState QueueError A → Exec (WorkerState W) WorkerError A
  unfolding texts
  in_queue what m s = queued what s (m s.queue_state)

-- the error of a request that another worker has
unfoldable pub is_taken : WorkerError → Bool
unfolding contains
is_taken e = e.is_runtime_error && contains "already claimed" e.message

module _ {W P R : Type 0} (worker : Worker W P R) where
  unfoldable pub response_envelope : Chances → ArtifactEnvelope P → P → ArtifactEnvelope P
  response_envelope chances request payload = record {
    artifact_id = chances.response_id;
    artifact_type = worker.response_artifact_type;
    source_agent = worker.agent_name;
    target_agent = request.source_agent;
    session_id = request.session_id;
    snapshot_id = request.snapshot_id;
    correlation_id = request.correlation_id;
    upstream_artifact_ids = request.artifact_id ∷ [];
    payload = payload;
  }

  unfoldable pub mark :
      Chances → ArtifactEnvelope P → String → Exec (WorkerState W) WorkerError String
  unfolding ◌>>◌ in_queue
  mark chances request path =
      in_queue "success" (mark_success worker.queue chances.success_fails request.artifact_id)
      >> pure path

  -- the response is written, kept, and the success marked
  unfoldable pub settle :
      Chances
      → ArtifactEnvelope P
      → ArtifactEnvelope P
      → String
      → Exec (WorkerState W) WorkerError String
  unfolding ◌>>◌ in_world mark
  settle chances request response path =
      in_world (worker.cache_produced response) >> mark chances request path

  unfoldable pub publish :
      Chances → ArtifactEnvelope P → P → Exec (WorkerState W) WorkerError String
  unfolding ◌>>=◌ in_world response_envelope settle
  publish chances request payload =
      in_world (worker.write_response (response_envelope chances request payload))
      >>= settle chances request (response_envelope chances request payload)

  unfoldable pub deliver :
      Chances → ArtifactEnvelope P → R → Exec (WorkerState W) WorkerError String
  unfolding ◌>>=◌ in_world publish
  deliver chances request result =
      in_world (λ w. (worker.build_response_payload result, w)) >>= publish chances request

  unfoldable pub answer : Chances → ArtifactEnvelope P → Exec (WorkerState W) WorkerError String
  unfolding ◌>>=◌ in_world deliver
  answer chances request = in_world (worker.handle_artifact request) >>= deliver chances request

  -- the body of the `try`
  unfoldable pub respond : Chances → ArtifactEnvelope P → Exec (WorkerState W) WorkerError String
  unfolding ◌>>◌ in_world answer
  respond chances request = in_world (worker.cache_received request) >> answer chances request

  -- `except Exception as exc`: the failure is marked, and the exception goes on
  unfoldable pub give_up :
      Chances → ArtifactEnvelope P → WorkerError → Exec (WorkerState W) WorkerError String
  unfolding in_queue ◌>>◌
  give_up chances request exc =
      in_queue "failure" (
        mark_failure worker.queue chances.failure_fails chances.status_fails request.artifact_id
          exc.message)
      >> raise exc

  unfoldable pub after_claim :
      Chances → ArtifactEnvelope P → Bool → Exec (WorkerState W) WorkerError String
  unfolding try_then respond give_up texts
  after_claim chances request true =
      try_then (respond chances request) pure (give_up chances request)
  after_claim chances request false = raise (
      runtime_error
        ("artifact " ∷ request.artifact_id ∷ " is already claimed for " ∷ worker.agent_name ∷ []))

  unfoldable pub claim : Chances → ArtifactEnvelope P → QueueState → Bool × QueueState
  unfolding claim_artifact
  claim chances request s =
      claim_artifact worker.queue chances.claim_fails request.artifact_id chances.claim_uuid
        chances.now s

  unfoldable pub consume_request_artifact :
      Chances → ArtifactEnvelope P → Exec (WorkerState W) WorkerError String
  unfolding claim after_claim texts
  consume_request_artifact chances request s =
      let (claimed, q) = claim chances request s.queue_state in
      if not (str_eq request.target_agent worker.agent_name)
      then (
        err (
            value_error (
              "artifact target_agent mismatch: expected " ∷ worker.agent_name ∷ ", got "
              ∷ request.target_agent ∷ [])),
        s,
      )
      else if not (str_eq request.artifact_type worker.expected_request_type)
      then (
        err (
            value_error (
              "artifact type mismatch: expected " ∷ worker.expected_request_type ∷ ", got "
              ∷ request.artifact_type ∷ [])),
        s,
      )
      else after_claim chances request claimed (record s { queue_state = q })

  -- the pending requests, in order, with what is met at each
  unfoldable pub poll_once :
      List (Chances × ArtifactEnvelope P) → Exec (WorkerState W) WorkerError (Option String)
  unfolding try_then consume_request_artifact is_taken
  poll_once [] = pure none
  poll_once ((chances, request) ∷ requests) =
      let rest = poll_once requests in
      if not (str_eq request.target_agent worker.agent_name)
      then rest
      else try_then (consume_request_artifact chances request) (λ path. pure (some path))
          (λ e. if is_taken e then rest else raise e)
