-- ===== src/Runtime/Tasks/Attempts.antt =====
-- A task that keeps failing is tried exactly as often as its row allows.
use multiagents.Prelude.{
  ℕ, suc, ◌+◌, ◌<◌, ◌≡◌, refl, ◌∙◌, Bool, false, ◌||◌, Option, none, some, List, [], ◌∷◌, String,
  leb, str_eq_iff, strip, lower, is_empty, if◌then◌else◌, All, length, arith,
}
use multiagents.Runtime.Tasks.{
  AgentTask, find_task, save_task, leased, completed, acquire_task_lease, complete_task,
  completed_status, is_terminal, attempt_limit,
}
use native.Mathlib.Nat.{add-zero, add-suc, suc-add}
use multiagents.Runtime.Tasks.Rows.{find-save_self, find-is_task}

-- One try of a worker that takes the task and then reports that it failed.
pub record Failure : Type 0 where
  pub owner : String
  pub seconds : ℕ
  pub now : ℕ
  pub error : String

-- `none`: the task was not granted
unfoldable pub fail_once : String → String → Failure → List AgentTask → Option (List AgentTask)
fail_once a t f rows =
    let (granted, rows') = acquire_task_lease false a t f.owner f.seconds f.now rows in
    if granted then some (complete_task false a t "failed" f.error rows').1 else none

unfoldable pub fail_times :
    String → String → List Failure → List AgentTask → Option (List AgentTask)
fail_times a t [] rows = some rows
fail_times a t (f ∷ fs) rows = elim (fail_once a t f rows) [
  | none ↦ none
  | some rows' ↦ fail_times a t fs rows'
]

-- The row of the task is open: not in a final state, and not leased.
pub record IsOpen (a t : String) (limit attempts : ℕ) (rows : List AgentTask) : Type 0 where
  pub row : AgentTask
  pub found : find_task a t rows ≡ some row
  pub open_status : is_terminal row.status ≡ false
  pub free : row.lease_owner ≡ none
  pub tried : row.attempts ≡ attempts
  pub limited : attempt_limit row.max_attempts ≡ limit

pub record IsDead (a t : String) (rows : List AgentTask) : Type 0 where
  pub row : AgentTask
  pub found : find_task a t rows ≡ some row
  pub dead : row.status ≡ "dead_letter"

abbrev pub IsNamed : Failure → Type 0
IsNamed f = is_empty f.owner ≡ false

module _ (a t : String) (keyed : (is_empty a || is_empty t) ≡ false) where
  after_failure : Failure → AgentTask → AgentTask
  after_failure f row = completed (leased row f.owner f.seconds f.now) "failed" f.error

  fail_once-row :
      (f : Failure) (row : AgentTask) (rows : List AgentTask)
      → IsNamed f
      → find_task a t rows ≡ some row
      → is_terminal row.status ≡ false
      → row.lease_owner ≡ none
      → fail_once a t f rows
        ≡ some
            (save_task (after_failure f row) (save_task (leased row f.owner f.seconds f.now) rows))
  unfolding fail_once after_failure acquire_task_lease complete_task
  fail_once-row f row rows named found o free =
      let (p, q) = find-is_task a t row rows found in
      let saved : find_task a t (save_task (leased row f.owner f.seconds f.now) rows)
          ≡ some (leased row f.owner f.seconds f.now) =
        find-save_self a t (leased row f.owner f.seconds f.now) row rows p q found in
      ground (arith, keyed, named, found, o, free, saved)

  after_failure-found :
      (f : Failure) (row : AgentTask) (rows : List AgentTask)
      → find_task a t rows ≡ some row
      → find_task a t
          (save_task (after_failure f row) (save_task (leased row f.owner f.seconds f.now) rows))
        ≡ some (after_failure f row)
  unfolding after_failure
  after_failure-found f row rows found =
      let (p, q) = find-is_task a t row rows found in
      find-save_self a t _ (leased row f.owner f.seconds f.now) _ p q
        (find-save_self a t (leased row f.owner f.seconds f.now) row rows p q found)

  failed_word : lower (strip "failed") ≡ "failed"
  unfolding lower strip
  failed_word = refl

  after_failure-status :
      (f : Failure) (row : AgentTask)
      → (after_failure f row).status ≡ (
          if leb (attempt_limit row.max_attempts) (row.attempts + 1)
          then "dead_letter"
          else "failed")
  unfolding after_failure completed_status
  after_failure-status f row = rw failed_word

  fail_once-IsOpen :
      (f : Failure) (limit n : ℕ) (rows : List AgentTask)
      → IsNamed f
      → suc n < limit
      → IsOpen a t limit n rows
      → (rows' : List AgentTask) × (fail_once a t f rows ≡ some rows')
        × IsOpen a t limit (suc n) rows'
  fail_once-IsOpen f limit n rows named lt o = (
    save_task (after_failure f o.row) (save_task (leased o.row f.owner f.seconds f.now) rows),
    fail_once-row f o.row rows named o.found o.open_status o.free,
    record {
      row = after_failure f o.row;
      found = after_failure-found f o.row rows o.found;
      open_status =
          let early : leb limit (n + 1) ≡ false = ground (arith, lt) in
          rw after_failure-status (simp (o.limited, o.tried, early) (unfold is_terminal in refl));
      free = unfold after_failure in refl;
      tried = unfold after_failure in omega (arith, o.tried);
      limited = unfold after_failure in o.limited;
    },
  )

  fail_once-IsDead :
      (f : Failure) (limit n : ℕ) (rows : List AgentTask)
      → IsNamed f
      → suc n ≡ limit
      → IsOpen a t limit n rows
      → (rows' : List AgentTask) × (fail_once a t f rows ≡ some rows') × IsDead a t rows'
  fail_once-IsDead f limit n rows named e o = (
    save_task (after_failure f o.row) (save_task (leased o.row f.owner f.seconds f.now) rows),
    fail_once-row f o.row rows named o.found o.open_status o.free,
    record {
      row = after_failure f o.row;
      found = after_failure-found f o.row rows o.found;
      dead = after_failure-status f o.row ∙ simp (o.limited, o.tried) (ground (arith, e));
    },
  )

  -- From an open row with room for exactly these failures, the last of them ends it.
  fail_times-IsDead :
      (f : Failure) (fs : List Failure) (limit n : ℕ) (rows : List AgentTask)
      → All IsNamed (f ∷ fs)
      → n + length (f ∷ fs) ≡ limit
      → IsOpen a t limit n rows
      → (rows' : List AgentTask) × (fail_times a t (f ∷ fs) rows ≡ some rows') × IsDead a t rows'
  unfolding fail_times
  fail_times-IsDead f [] limit n rows named e o =
      let (rows', h, d) = fail_once-IsDead f limit n rows named.0 (omega arith) o in
      (rows', rw (h, fail_times), d)
  fail_times-IsDead f (g ∷ fs) limit n rows named e o =
      let (rows', h, o') = fail_once-IsOpen f limit n rows named.0 (omega arith) o in
      let (last, h', d) = fail_times-IsDead g fs limit (suc n) rows' named.1 (omega arith) o' in
      (last, rw (h, fail_times) h', d)

  fail_times-IsOpen :
      (fs : List Failure) (limit n : ℕ) (rows : List AgentTask)
      → All IsNamed fs
      → n + length fs < limit
      → IsOpen a t limit n rows
      → (rows' : List AgentTask) × (fail_times a t fs rows ≡ some rows')
        × IsOpen a t limit (n + length fs) rows'
  unfolding fail_times
  fail_times-IsOpen [] limit n rows named lt o = (rows, refl, rw add-zero o)
  fail_times-IsOpen (f ∷ fs) limit n rows named lt o =
      let (rows', h, o') = fail_once-IsOpen f limit n rows named.0 (omega arith) o in
      let (last, h', o'') = fail_times-IsOpen fs limit (suc n) rows' named.1 (omega arith) o' in
      (last, rw (h, fail_times) h', rw (add-suc, ← suc-add) o'')

  dead_refused :
      (fails : Bool) (owner : String) (seconds now : ℕ) (rows : List AgentTask)
      → IsDead a t rows
      → acquire_task_lease fails a t owner seconds now rows ≡ (false, rows)
  unfolding acquire_task_lease
  dead_refused fails owner seconds now rows d =
      ground (arith, d.found, d.dead, str_eq_iff d.row.status "dead_letter")

-- A task whose row is open, has `n` attempts and allows `limit` is granted for each of the next
-- `limit - n` tries that all fail. Then its status is `dead_letter`, and nobody is granted it.
pub retries_end :
    (a t : String) (f : Failure) (fs : List Failure) (limit n : ℕ) (rows : List AgentTask)
    (fails : Bool) (owner : String) (seconds now : ℕ)
    → (is_empty a || is_empty t) ≡ false
    → All IsNamed (f ∷ fs)
    → n + length (f ∷ fs) ≡ limit
    → IsOpen a t limit n rows
    → (rows' : List AgentTask) × (fail_times a t (f ∷ fs) rows ≡ some rows')
      × IsDead a t rows'
      × (acquire_task_lease fails a t owner seconds now rows' ≡ (false, rows'))
retries_end a t f fs limit n rows fails owner seconds now keyed named e o =
    let (rows', h, d) = fail_times-IsDead a t keyed f fs limit n rows named e o in
    (rows', h, d, dead_refused a t keyed fails owner seconds now rows' d)

-- With fewer failures every try is granted, and the row stays open with the failures counted.
pub retries_go_on :
    (a t : String) (fs : List Failure) (limit n : ℕ) (rows : List AgentTask)
    → (is_empty a || is_empty t) ≡ false
    → All IsNamed fs
    → n + length fs < limit
    → IsOpen a t limit n rows
    → (rows' : List AgentTask) × (fail_times a t fs rows ≡ some rows')
      × IsOpen a t limit (n + length fs) rows'
retries_go_on a t fs limit n rows keyed = fail_times-IsOpen a t keyed fs limit n rows
