-- ===== src/Runtime/Worker/Released.antt =====
-- Whatever happens to a request, the worker leaves no lease file of its own behind.
use multiagents.Prelude.{
  ◌≡◌, refl, inl, inr, Bool, true, false, Bool-cases, Option, some, List, [], ◌∷◌, String, str_eq,
  str_eq_iff, if◌then◌else◌, arith,
}
use multiagents.Exec.{
  Result, ok, err, Exec, pure, raise, resume, try_then, ◌>>=◌, ◌>>◌, Keeps, Keeps-after, Leads,
  Leads-bind,
}
use multiagents.Runtime.Queue.{QueueState, QueueError, mark_success, mark_failure}
use multiagents.Runtime.Queue.Freed.{
  IsFree, OnlyFor, mark_success_frees, mark_failure_frees, claim_artifact-OnlyFor, refused_leases,
}
use multiagents.Runtime.Worker.{
  ArtifactEnvelope, WorkerError, Worker, Chances, WorkerState, lifted, queued, in_world, in_queue,
  response_envelope, mark, settle, publish, deliver, answer, respond, give_up, after_claim, claim,
  consume_request_artifact, is_taken, poll_once,
}

module _ {W P R : Type 0} (worker : Worker W P R) (a : String) where
  -- no lease file for the artifact, or one of the request's alone
  abbrev pub Free : WorkerState W → Type 0
  Free s = IsFree a s.queue_state

  abbrev Only : String → WorkerState W → Type 0
  Only id s = OnlyFor id a s.queue_state

  in_world-Only :
      {A : Type 0} (id : String) (m : Exec W WorkerError A) (s : WorkerState W)
      → Only id s
      → Leads (λ _ s'. Only id s') (λ _ s'. Only id s') (in_world m s)
  unfolding in_world
  in_world-Only {A = A} id m s h = by_result (m s.world)
    where
      by_result :
          (r : Result WorkerError A × W)
          → Leads (λ _ s'. Only id s') (λ _ s'. Only id s') (lifted s r)
      by_result (ok v, w) = h
      by_result (err e, w) = h

  in_queue-Free :
      {A : Type 0} (what : String) (m : Exec QueueState QueueError A) (s : WorkerState W)
      → IsFree a (m s.queue_state).1
      → Free (in_queue what m s).1
  unfolding in_queue
  in_queue-Free {A = A} what m s h = by_result (m s.queue_state) h
    where
      by_result : (r : Result QueueError A × QueueState) → IsFree a r.1 → Free (queued what s r).1
      by_result (ok v, q) k = k
      by_result (err e, q) k = k

  both :
      {A : Type 0} (id : String) (r : Result WorkerError A × WorkerState W)
      → Free r.1
      → Leads (λ _ s'. Free s') (λ _ s'. Only id s') r
  both id (ok v, s) h = h
  both id (err e, s) h = λ _. h

  -- what is promised of the body of the `try`
  abbrev Frees : String → Result WorkerError String × WorkerState W → Type 0
  Frees id = Leads (λ _ s. Free s) (λ _ s. Only id s)

  then_world :
      {A : Type 0} (id : String) (m : Exec W WorkerError A)
      (f : A → Exec (WorkerState W) WorkerError String) (s : WorkerState W)
      → Only id s
      → ((v : A) (t : WorkerState W) → Only id t → Frees id (f v t))
      → Frees id ((in_world m >>= f) s)
  then_world id m f s h k =
      Leads-bind (λ _ t. Free t) (λ _ t. Only id t) (in_world m) f s (λ _ t. Only id t)
        (in_world-Only id m s h) k

  module _ (chances : Chances) (request : ArtifactEnvelope P) where
    mark-Frees :
        (path : String) (s : WorkerState W)
        → Only request.artifact_id s
        → Frees request.artifact_id (mark worker chances request path s)
    unfolding mark ◌>>◌
    mark-Frees path s h =
        Leads-bind (λ _ t. Free t) (λ _ t. Only request.artifact_id t)
          (in_queue "success" (mark_success worker.queue chances.success_fails request.artifact_id))
          (λ _. pure path) s (λ _ t. Free t)
          (both request.artifact_id
            (in_queue "success"
              (mark_success worker.queue chances.success_fails request.artifact_id) s)
            (in_queue-Free "success"
              (mark_success worker.queue chances.success_fails request.artifact_id) s
              (mark_success_frees worker.queue request.artifact_id a s.queue_state
                chances.success_fails h)))
          (λ _ t k. k)

    settle-Frees :
        (response : ArtifactEnvelope P) (path : String) (s : WorkerState W)
        → Only request.artifact_id s
        → Frees request.artifact_id (settle worker chances request response path s)
    unfolding settle ◌>>◌
    settle-Frees response path s h =
        then_world request.artifact_id (worker.cache_produced response)
          (λ _. mark worker chances request path) s h (λ _. mark-Frees path)

    publish-Frees :
        (payload : P) (s : WorkerState W)
        → Only request.artifact_id s
        → Frees request.artifact_id (publish worker chances request payload s)
    unfolding publish
    publish-Frees payload s h =
        then_world request.artifact_id
          (worker.write_response (response_envelope worker chances request payload))
          (settle worker chances request (response_envelope worker chances request payload)) s h
          (settle-Frees (response_envelope worker chances request payload))

    deliver-Frees :
        (result : R) (s : WorkerState W)
        → Only request.artifact_id s
        → Frees request.artifact_id (deliver worker chances request result s)
    unfolding deliver
    deliver-Frees result s h =
        then_world request.artifact_id (λ w. (worker.build_response_payload result, w))
          (publish worker chances request) s h publish-Frees

    respond-Frees :
        (s : WorkerState W)
        → Only request.artifact_id s
        → Frees request.artifact_id (respond worker chances request s)
    unfolding respond answer ◌>>◌
    respond-Frees s h =
        then_world request.artifact_id (worker.cache_received request)
          (λ _. answer worker chances request) s h
          (λ _ t k.
            then_world request.artifact_id (worker.handle_artifact request)
              (deliver worker chances request) t k deliver-Frees)

    give_up-Free :
        (e : WorkerError) (s : WorkerState W)
        → Only request.artifact_id s
        → Free (give_up worker chances request e s).1
    unfolding give_up ◌>>◌
    give_up-Free e s h =
        Keeps-after Free
          (in_queue "failure" (
            mark_failure worker.queue chances.failure_fails chances.status_fails request.artifact_id
              e.message))
          (λ _. raise e) s
          (in_queue-Free "failure"
            (mark_failure worker.queue chances.failure_fails chances.status_fails
              request.artifact_id e.message)
            s
            (mark_failure_frees worker.queue request.artifact_id a s.queue_state
              chances.failure_fails chances.status_fails e.message h))
          (λ _ _ k. k)

    tried-Free :
        (r : Result WorkerError String × WorkerState W)
        → Frees request.artifact_id r
        → Free (resume r.0 pure (give_up worker chances request) r.1).1
    tried-Free (ok path, s) h = h
    tried-Free (err e, s) h = give_up-Free e s h

    -- a request that was claimed
    claimed-Free :
        (s : WorkerState W)
        → Only request.artifact_id s
        → Free (after_claim worker chances request true s).1
    unfolding after_claim try_then
    claimed-Free s h = tried-Free (respond worker chances request s) (respond-Frees s h)

    unclaimed-Free :
        (s : WorkerState W) → Free s → Free (after_claim worker chances request false s).1
    unfolding after_claim
    unclaimed-Free s h = h

    claim-Free :
        (claimed : Bool) (s : WorkerState W)
        → (claim worker chances request s.queue_state).0 ≡ claimed
        → Free s
        → Free
            (after_claim worker chances request claimed
              (record s { queue_state = (claim worker chances request s.queue_state).1 })).1
    unfolding claim
    claim-Free true s e h = claimed-Free _ (
        claim_artifact-OnlyFor worker.queue request.artifact_id a s.queue_state chances.claim_fails
          chances.claim_uuid chances.now h)
    claim-Free false s e h = unclaimed-Free _ (
        rw
          (refused_leases worker.queue request.artifact_id a s.queue_state chances.claim_fails
            chances.claim_uuid chances.now e)
          h)

    consume-Free : Keeps Free (consume_request_artifact worker chances request)
    unfolding consume_request_artifact
    consume-Free s h = elim (Bool-cases (str_eq request.target_agent worker.agent_name)) [
      | inr misdirected ↦ rw misdirected h
      | inl addressed ↦
          rw addressed
            (elim (Bool-cases (str_eq request.artifact_type worker.expected_request_type)) [
              | inr mistyped ↦ rw mistyped h
              | inl typed ↦ rw typed (claim-Free _ s refl h)
            ])
    ]

  polled-Free :
      (rest : Exec (WorkerState W) WorkerError (Option String))
      (r : Result WorkerError String × WorkerState W)
      → Keeps Free rest
      → Free r.1
      → Free
          (resume r.0 (λ path. pure (some path)) (λ e. if is_taken e then rest else raise e) r.1).1
  polled-Free rest (ok path, s) k h = h
  polled-Free rest (err e, s) k h = elim (Bool-cases (is_taken e)) [
    | inl taken ↦ rw taken (k s h)
    | inr other ↦ rw other h
  ]

  -- Polling, whatever the handlers and the database do and whether it returns or raises, leaves no
  -- lease file for an artifact that had none before.
  pub poll_once_frees :
      (requests : List (Chances × ArtifactEnvelope P)) (s : WorkerState W)
      → IsFree a s.queue_state
      → IsFree a (poll_once worker requests s).1.queue_state
  unfolding poll_once try_then
  poll_once_frees [] s h = h
  poll_once_frees ((chances, request) ∷ requests) s h =
      elim (Bool-cases (str_eq request.target_agent worker.agent_name)) [
        | inr other ↦ rw other (poll_once_frees requests s h)
        | inl addressed ↦ rw addressed (
            polled-Free (poll_once worker requests)
              (consume_request_artifact worker chances request s) (poll_once_frees requests)
              (consume-Free chances request s h))
      ]

-- A request that is addressed to the worker, has the type it expects and is claimed has no lease file
-- when it has been consumed, whatever the handler and the database do and whether the code returns or
-- raises.
pub consume_request_artifact_frees :
    {W P R : Type 0} (worker : Worker W P R) (chances : Chances) (request : ArtifactEnvelope P)
    (s : WorkerState W)
    → request.target_agent ≡ worker.agent_name
    → request.artifact_type ≡ worker.expected_request_type
    → (claim worker chances request s.queue_state).0 ≡ true
    → IsFree request.artifact_id (consume_request_artifact worker chances request s).1.queue_state
unfolding consume_request_artifact
consume_request_artifact_frees worker chances request s addressed typed claimed =
    rw
      (
        (str_eq_iff request.target_agent worker.agent_name).1 addressed,
        (str_eq_iff request.artifact_type worker.expected_request_type).1 typed,
        claimed,
      )
      (claimed-Free worker request.artifact_id chances request _ (λ other.
        absurd (ground (arith, other, str_eq_iff request.artifact_id request.artifact_id))))
