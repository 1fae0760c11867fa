-- ===== src/Runtime/Queue/Freed.antt =====
-- Lease files: the marks remove the one of their artifact, and a claim writes no other.
use multiagents.Prelude.{
  ◌≡◌, refl, inl, inr, Bool, false, Bool-cases, Option, none, List, [], ◌∷◌, String, str_eq,
  str_eq_iff, arith, ℕ,
}
use Prim.Native.String.{◌++◌}
use multiagents.Runtime.Tasks.{acquire_task_lease, complete_task}
use multiagents.Runtime.Queue.{
  Lease, FailureNote, QueueState, FileTaskQueue, file, unlink, write_file, read_lease,
  lease_is_active, claim_artifact, mark_success, mark_failure, note_error,
}
use multiagents.Runtime.Queue.Claims.{file-unlink}

module _ {A : Type 0} where
  -- a file of another name stays missing
  unlink_missing :
      (name other : String) (files : List (String × A))
      → file other files ≡ none
      → file other (unlink name files) ≡ none
  unfolding file unlink
  unlink_missing name other [] h = refl
  unlink_missing name other ((k, v) ∷ files) h = ground (arith, h, unlink_missing name other files)

  write_missing :
      (name other : String) (v : A) (files : List (String × A))
      → str_eq name other ≡ false
      → file other files ≡ none
      → file other (write_file name v files) ≡ none
  unfolding file write_file
  write_missing name other v files h k = ground (arith, h, unlink_missing name other files k)

-- There is no lease file for the artifact.
abbrev pub IsFree : String → QueueState → Type 0
IsFree a s = file a s.leases ≡ none

-- a lease file, if there is one, is that of the request
abbrev pub OnlyFor : String → String → QueueState → Type 0
OnlyFor id a s = str_eq id a ≡ false → IsFree a s

unlink_free :
    (id a : String) (leases : List (String × Option Lease))
    → (str_eq id a ≡ false → file a leases ≡ none)
    → file a (unlink id leases) ≡ none
unlink_free id a leases h = elim (Bool-cases (str_eq id a)) [
  | inl same ↦ rw ((str_eq_iff id a).0 same) (file-unlink a leases)
  | inr other ↦ unlink_missing id a leases (h other)
]

pub note_error-leases :
    (dead : Bool) (id : String) (note : FailureNote) (s : QueueState)
    → (note_error dead id note s).leases ≡ s.leases
unfolding note_error
note_error-leases dead id note s = ground arith

module _ (q : FileTaskQueue) (id a : String) (s : QueueState) where
  pub mark_success_frees : (fails : Bool) → OnlyFor id a s → IsFree a (mark_success q fails id s).1
  unfolding mark_success
  mark_success_frees fails h =
      elim (Bool-cases (complete_task fails id q.agent_name "succeeded" "" s.tasks).0) [
        | inl done ↦ rw done (unlink_free id a s.leases h)
        | inr refused ↦ rw refused (unlink_free id a s.leases h)
      ]

  pub mark_failure_frees :
      (fails blind : Bool) (error : String)
      → OnlyFor id a s
      → IsFree a (mark_failure q fails blind id error s).1
  unfolding mark_failure
  mark_failure_frees fails blind error h =
      elim (Bool-cases (complete_task fails id q.agent_name "failed" error s.tasks).0) [
        | inl done ↦ rw (done, note_error-leases) (unlink_free id a s.leases h)
        | inr refused ↦ rw refused (unlink_free id a s.leases h)
      ]

  pub claim_artifact-OnlyFor :
      (fails : Bool) (uuid : String) (now : ℕ)
      → IsFree a s
      → OnlyFor id a (claim_artifact q fails id uuid now s).1
  unfolding claim_artifact
  claim_artifact-OnlyFor fails uuid now h other =
      elim (Bool-cases (lease_is_active (read_lease id s.leases) now)) [
        | inl active ↦ rw active h
        | inr free ↦
            rw free
              (elim (Bool-cases
                (acquire_task_lease fails id q.agent_name (q.agent_name ++ "-" ++ uuid)
                  q.lease_seconds now s.tasks).0) [
                    | inl leased ↦ rw leased (write_missing id a _ s.leases other h)
                    | inr refused ↦ rw refused h
                  ])
      ]

  -- a claim that is refused writes no lease file
  pub refused_leases :
      (fails : Bool) (uuid : String) (now : ℕ)
      → (claim_artifact q fails id uuid now s).0 ≡ false
      → (claim_artifact q fails id uuid now s).1.leases ≡ s.leases
  unfolding claim_artifact
  refused_leases fails uuid now h = ground (arith, h)
