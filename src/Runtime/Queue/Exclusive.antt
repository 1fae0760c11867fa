-- ===== src/Runtime/Queue/Exclusive.antt =====
-- How long a claim keeps other workers out, whatever else happens in the queue.
use Prim.Native.String.{◌++◌}
use mathlib.Core.Path.{subst}
use multiagents.Prelude.{
  ℕ, ◌+◌, ◌<◌, ◌≡◌, refl, sym, ◌∙◌, inl, inr, Bool, true, false, Bool-cases, some, List, [], ◌∷◌,
  All, String, str_eq, str_eq_iff, arith,
}
use multiagents.Runtime.Tasks.{AgentTask, acquire_task_lease, complete_task}
use multiagents.Runtime.Queue.{
  Lease, QueueState, FileTaskQueue, file, unlink, write_file, read_lease, lease_is_active,
  claim_artifact, mark_success, mark_failure,
}
use multiagents.Runtime.Queue.Claims.{active_refused}
use multiagents.Runtime.Queue.Freed.{note_error-leases}

module _ {A : Type 0} where
  file-unlink_other :
      (name other : String) (files : List (String × A))
      → str_eq name other ≡ false
      → file other (unlink name files) ≡ file other files
  unfolding file unlink
  file-unlink_other name other [] h = refl
  file-unlink_other name other ((k, v) ∷ files) h =
      ground (arith, h, str_eq_iff k name, file-unlink_other name other files h)

  file-write_other :
      (name other : String) (v : A) (files : List (String × A))
      → str_eq name other ≡ false
      → file other (write_file name v files) ≡ file other files
  unfolding file write_file
  file-write_other name other v files h = rw h (file-unlink_other name other files h)

-- What the workers of an agent do to its queue, each with a queue object of its own: claims and marks,
-- and any change to the table alone.
pub data QueueEvent : Type 0 where
  claims : FileTaskQueue → Bool → String → String → ℕ → QueueEvent
  succeeds : FileTaskQueue → Bool → String → QueueEvent
  fails_with : FileTaskQueue → Bool → Bool → String → String → QueueEvent
  table_becomes : List AgentTask → QueueEvent

unfoldable pub after_event : QueueEvent → QueueState → QueueState
unfolding claim_artifact mark_success mark_failure
after_event (claims q fails id uuid now) s = (claim_artifact q fails id uuid now s).1
after_event (succeeds q fails id) s = (mark_success q fails id s).1
after_event (fails_with q fails blind id error) s = (mark_failure q fails blind id error s).1
after_event (table_becomes tasks) s = record s { tasks = tasks }

unfoldable pub after_events : List QueueEvent → QueueState → QueueState
unfolding after_event
after_events [] s = s
after_events (e ∷ es) s = after_events es (after_event e s)

-- Nobody marks the artifact, and claims of it come before the time.
abbrev pub LeavesAlone : String → ℕ → QueueEvent → Type 0
LeavesAlone a expires (claims q fails id uuid now) = str_eq id a ≡ true → now < expires
LeavesAlone a expires (succeeds q fails id) = str_eq id a ≡ false
LeavesAlone a expires (fails_with q fails blind id error) = str_eq id a ≡ false
LeavesAlone a expires (table_becomes tasks) = Unit

-- The lease file of the artifact holds the lease.
abbrev pub Holds : String → Lease → QueueState → Type 0
Holds a lease s = file a s.leases ≡ some (some lease)

module _ (a : String) (lease : Lease) (s : QueueState) (held : Holds a lease s) where
  held_active :
      (now : ℕ) → now < lease.expires_at → lease_is_active (read_lease a s.leases) now ≡ true
  unfolding read_lease lease_is_active
  held_active now early = ground (arith, held, early)

  held_refused :
      (q : FileTaskQueue) (fails : Bool) (uuid : String) (now : ℕ)
      → now < lease.expires_at
      → claim_artifact q fails a uuid now s ≡ (false, s)
  held_refused q fails uuid now early = active_refused q fails a uuid now s (held_active now early)

  other_claimed :
      (q : FileTaskQueue) (fails : Bool) (id uuid : String) (now : ℕ)
      → str_eq id a ≡ false
      → Holds a lease (claim_artifact q fails id uuid now s).1
  unfolding claim_artifact
  other_claimed q fails id uuid now other =
      elim (Bool-cases (lease_is_active (read_lease id s.leases) now)) [
        | inl active ↦ rw active held
        | inr idle ↦
            elim (Bool-cases
              (acquire_task_lease fails id q.agent_name (q.agent_name ++ "-" ++ uuid)
                q.lease_seconds now s.tasks).0) [
                  | inl leased ↦ rw (idle, leased) (file-write_other id a _ s.leases other ∙ held)
                  | inr refused ↦ rw (idle, refused) held
                ]
      ]

  same_claimed :
      (q : FileTaskQueue) (fails : Bool) (id uuid : String) (now : ℕ)
      → str_eq id a ≡ true
      → now < lease.expires_at
      → Holds a lease (claim_artifact q fails id uuid now s).1
  same_claimed q fails id uuid now same early =
      subst (λ x. Holds a lease (claim_artifact q fails x uuid now s).1)
        (sym ((str_eq_iff id a).0 same))
        (subst (λ r. Holds a lease r.1) (sym (held_refused q fails uuid now early)) held)

  success_marked :
      (q : FileTaskQueue) (fails : Bool) (id : String)
      → str_eq id a ≡ false
      → Holds a lease (mark_success q fails id s).1
  unfolding mark_success
  success_marked q fails id other =
      elim (Bool-cases (complete_task fails id q.agent_name "succeeded" "" s.tasks).0) [
        | inl done ↦ rw done (file-unlink_other id a s.leases other ∙ held)
        | inr refused ↦ rw refused (file-unlink_other id a s.leases other ∙ held)
      ]

  failure_marked :
      (q : FileTaskQueue) (fails blind : Bool) (id error : String)
      → str_eq id a ≡ false
      → Holds a lease (mark_failure q fails blind id error s).1
  unfolding mark_failure
  failure_marked q fails blind id error other =
      elim (Bool-cases (complete_task fails id q.agent_name "failed" error s.tasks).0) [
        | inl done ↦
            rw (done, note_error-leases _ id _ _) (file-unlink_other id a s.leases other ∙ held)
        | inr refused ↦ rw refused (file-unlink_other id a s.leases other ∙ held)
      ]

  after_event-Holds :
      (e : QueueEvent) → LeavesAlone a lease.expires_at e → Holds a lease (after_event e s)
  unfolding after_event
  after_event-Holds (table_becomes tasks) h = held
  after_event-Holds (succeeds q fails id) h = success_marked q fails id h
  after_event-Holds (fails_with q fails blind id error) h = failure_marked q fails blind id error h
  after_event-Holds (claims q fails id uuid now) h = elim (Bool-cases (str_eq id a)) [
    | inl same ↦ same_claimed q fails id uuid now same (h same)
    | inr other ↦ other_claimed q fails id uuid now other
  ]

after_events-Holds :
    (a : String) (lease : Lease) (es : List QueueEvent) (s : QueueState)
    → All (LeavesAlone a lease.expires_at) es
    → Holds a lease s
    → Holds a lease (after_events es s)
unfolding after_events
after_events-Holds a lease [] s h held = held
after_events-Holds a lease (e ∷ es) s h held =
    after_events-Holds a lease es (after_event e s) h.1 (after_event-Holds a lease s held e h.0)

claimed-Holds :
    (q : FileTaskQueue) (fails : Bool) (a uuid : String) (now : ℕ) (s s' : QueueState)
    → claim_artifact q fails a uuid now s ≡ (true, s')
    → (lease : Lease) × (lease.expires_at ≡ now + q.lease_seconds) × Holds a lease s'
unfolding claim_artifact file write_file
claimed-Holds q fails a uuid now s s' h = (
  record {
    artifact_id = a;
    target_agent = q.agent_name;
    lease_owner = q.agent_name ++ "-" ++ uuid;
    expires_at = now + q.lease_seconds;
  },
  refl,
  ground (arith, h, str_eq_iff a a),
)

-- A claim that succeeds keeps every worker of the agent out until the lease file expires: whatever is
-- claimed before then, whatever is marked of other artifacts, and however the table changes, a claim
-- of the artifact before that time is refused and changes nothing. A mark of the artifact itself,
-- which any worker can make, ends this.
pub claim_exclusive :
    (q q' : FileTaskQueue) (fails down : Bool) (a uuid uuid' : String) (now later : ℕ)
    (s s' : QueueState) (es : List QueueEvent)
    → claim_artifact q fails a uuid now s ≡ (true, s')
    → All (LeavesAlone a (now + q.lease_seconds)) es
    → later < now + q.lease_seconds
    → claim_artifact q' down a uuid' later (after_events es s') ≡ (false, after_events es s')
claim_exclusive q q' fails down a uuid uuid' now later s s' es h alone early =
    let held = claimed-Holds q fails a uuid now s s' h in
    held_refused a held.0 (after_events es s')
      (after_events-Holds a held.0 es s' (rw held.1 alone) held.2) q' down uuid' later
      (rw held.1 early)
