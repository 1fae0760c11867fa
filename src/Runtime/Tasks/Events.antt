-- ===== src/Runtime/Tasks/Events.antt =====
-- Transactions of other processes on the task table, and the lease that they leave alone.
use multiagents.Prelude.{
  ℕ, ◌<◌, ◌≡◌, ◌≢◌, refl, sym, ◌∙◌, Bool, true, false, ◌&&◌, ◌||◌, Option, none, some, List, [],
  ◌∷◌, String, str_eq, str_eq_iff, is_empty, Bool-cases, inl, inr, All, arith,
}
use multiagents.Runtime.Tasks.{
  AgentTask, TaskRequest, is_task, find_task, save_task, enqueue_task, acquire_task_lease,
  complete_task, held_by_other, enqueue_row, lease_row, complete_row, new_task, is_terminal,
}
use multiagents.Runtime.Tasks.Rows.{find-save_self, find-save_ne, find-is_task}

-- What any process may do to the table: one transaction, which the database may refuse.
pub data TaskEvent : Type 0 where
  enqueue : Bool → TaskRequest → ℕ → TaskEvent
  acquire : Bool → String → String → String → ℕ → ℕ → TaskEvent
  complete : Bool → String → String → String → String → TaskEvent

unfoldable pub apply_event : TaskEvent → List AgentTask → List AgentTask
apply_event (enqueue fails r m) rows = (enqueue_task fails r m rows).1
apply_event (acquire fails a t owner seconds now) rows =
    (acquire_task_lease fails a t owner seconds now rows).1
apply_event (complete fails a t status error) rows = (complete_task fails a t status error rows).1

unfoldable pub apply_events : List TaskEvent → List AgentTask → List AgentTask
apply_events [] rows = rows
apply_events (e ∷ es) rows = apply_events es (apply_event e rows)

-- An event that leaves the lease of the task to `owner`: nobody completes the task, the owner does
-- not renew, and what others try to acquire they try before `expires`.
abbrev pub Respects : String → String → String → ℕ → TaskEvent → Type 0
Respects a t owner expires (enqueue fails r m) = Unit
Respects a t owner expires (acquire fails a' t' other seconds now) =
    (now < expires) × (other ≢ owner)
Respects a t owner expires (complete fails a' t' status error) =
    (str_eq a' a && str_eq t' t) ≡ false

-- The task is leased to `owner` until `expires`.
pub record IsLeased (a t owner : String) (expires : ℕ) (rows : List AgentTask) : Type 0 where
  pub row : AgentTask
  pub found : find_task a t rows ≡ some row
  pub owned : row.lease_owner ≡ some owner
  pub until : row.lease_expires_at ≡ some expires

module _ (a t owner : String) (expires : ℕ) (named : is_empty owner ≡ false) where
  pub refused_while_leased :
      (fails : Bool) (other : String) (seconds now : ℕ) (rows : List AgentTask)
      → now < expires
      → other ≢ owner
      → IsLeased a t owner expires rows
      → acquire_task_lease fails a t other seconds now rows ≡ (false, rows)
  unfolding acquire_task_lease
  refused_while_leased fails other seconds now rows before ne l =
      ground (arith, l.found, l.owned, l.until, str_eq_iff owner other)

  saved-IsLeased :
      (new : AgentTask) (rows : List AgentTask)
      → is_task a t new ≡ false
      → IsLeased a t owner expires rows
      → IsLeased a t owner expires (save_task new rows)
  saved-IsLeased new rows other l = record {
    row = l.row;
    found = find-save_ne a t new rows other ∙ l.found;
    owned = l.owned;
    until = l.until;
  }

  -- a lookup of another key, or the same: then it finds the leased row
  same_key :
      (a' t' : String) (rows : List AgentTask)
      → (str_eq a' a && str_eq t' t) ≡ true
      → find_task a' t' rows ≡ find_task a t rows
  same_key a' t' rows h = ground (arith, str_eq_iff a' a, str_eq_iff t' t)

  requeued-IsLeased :
      (row : AgentTask) (rows : List AgentTask)
      → find_task row.artifact_id row.target_agent rows ≡ some row
      → IsLeased a t owner expires rows
      → IsLeased a t owner expires
          (save_task (record row { status = "queued"; last_error = none }) rows)
  requeued-IsLeased row rows f l = elim (Bool-cases (is_task a t row)) [
    | inl same ↦
        let e : some row ≡ some l.row =
          sym f ∙ same_key row.artifact_id row.target_agent rows same ∙ l.found in
        record {
          row = record row { status = "queued"; last_error = none };
          found =
              find-save_self a t _ row rows (ground (arith, str_eq_iff row.artifact_id a))
                (ground (arith, str_eq_iff row.target_agent t)) (ground (arith, e, l.found));
          owned = ground (arith, e, l.owned);
          until = ground (arith, e, l.until);
        }
    | inr other ↦ saved-IsLeased _ rows other l
  ]

  added-IsLeased :
      (new : AgentTask) (rows : List AgentTask)
      → find_task new.artifact_id new.target_agent rows ≡ none
      → IsLeased a t owner expires rows
      → IsLeased a t owner expires (new ∷ rows)
  unfolding find_task
  added-IsLeased new rows f l = record {
    row = l.row;
    found = ground (arith, l.found, f, same_key new.artifact_id new.target_agent rows);
    owned = l.owned;
    until = l.until;
  }

  enqueue_row-IsLeased :
      (r : TaskRequest) (m : ℕ) (rows : List AgentTask) (o : Option AgentTask)
      → find_task r.artifact_id r.target_agent rows ≡ o
      → IsLeased a t owner expires rows
      → IsLeased a t owner expires (enqueue_row r m rows o)
  unfolding enqueue_row
  enqueue_row-IsLeased r m rows none f l = added-IsLeased (new_task r m) rows f l
  enqueue_row-IsLeased r m rows (some row) f l =
      let (p, q) = find-is_task r.artifact_id r.target_agent row rows f in
      requeued-IsLeased row rows (simp (p, q) f) l

  enqueue-IsLeased :
      (fails : Bool) (r : TaskRequest) (m : ℕ) (rows : List AgentTask)
      → IsLeased a t owner expires rows
      → IsLeased a t owner expires (enqueue_task fails r m rows).1
  unfolding enqueue_task
  enqueue-IsLeased fails r m rows l =
      elim (Bool-cases (is_empty r.artifact_id || is_empty r.target_agent || fails)) [
        | inl refused ↦ rw refused l
        | inr begun ↦ rw begun (enqueue_row-IsLeased r m rows _ refl l)
      ]

  -- a save under another key, by a transaction that found its row
  other_saved-IsLeased :
      (a' t' : String) (row new : AgentTask) (rows : List AgentTask)
      → (str_eq a' a && str_eq t' t) ≡ false
      → find_task a' t' rows ≡ some row
      → new.artifact_id ≡ row.artifact_id
      → new.target_agent ≡ row.target_agent
      → IsLeased a t owner expires rows
      → IsLeased a t owner expires (save_task new rows)
  other_saved-IsLeased a' t' row new rows other f p q l =
      let (p', q') = find-is_task a' t' row rows f in
      saved-IsLeased new rows (simp (p, q, p', q') other) l

  lease_row-IsLeased :
      (a' t' : String) (holder : String) (seconds now : ℕ) (rows : List AgentTask)
      (o : Option AgentTask)
      → (str_eq a' a && str_eq t' t) ≡ false
      → find_task a' t' rows ≡ o
      → IsLeased a t owner expires rows
      → IsLeased a t owner expires (lease_row holder seconds now rows o).1
  unfolding lease_row
  lease_row-IsLeased a' t' holder seconds now rows none other f l = l
  lease_row-IsLeased a' t' holder seconds now rows (some row) other f l =
      elim (Bool-cases
        (is_terminal row.status || held_by_other row.lease_owner row.lease_expires_at holder now)) [
          | inl refused ↦ rw refused l
          | inr free ↦ rw free (other_saved-IsLeased a' t' row _ rows other f refl refl l)
        ]

  acquire-IsLeased :
      (fails : Bool) (a' t' holder : String) (seconds now : ℕ) (rows : List AgentTask)
      → now < expires
      → holder ≢ owner
      → IsLeased a t owner expires rows
      → IsLeased a t owner expires (acquire_task_lease fails a' t' holder seconds now rows).1
  acquire-IsLeased fails a' t' holder seconds now rows before ne l =
      elim (Bool-cases (str_eq a' a && str_eq t' t)) [
        | inl same ↦
            let p : a' ≡ a = ground (arith, str_eq_iff a' a) in
            let q : t' ≡ t = ground (arith, str_eq_iff t' t) in
            rw (p, q, refused_while_leased fails holder seconds now rows before ne l) l
        | inr other ↦ elsewhere other
      ]
    where
      elsewhere :
          (str_eq a' a && str_eq t' t) ≡ false
          → IsLeased a t owner expires (acquire_task_lease fails a' t' holder seconds now rows).1
      elsewhere other =
          unfold acquire_task_lease in
          elim (Bool-cases (is_empty a' || is_empty t' || is_empty holder || fails)) [
            | inl refused ↦ rw refused l
            | inr begun ↦ rw begun (lease_row-IsLeased a' t' holder seconds now rows _ other refl l)
          ]

  complete_row-IsLeased :
      (a' t' status error : String) (rows : List AgentTask) (o : Option AgentTask)
      → (str_eq a' a && str_eq t' t) ≡ false
      → find_task a' t' rows ≡ o
      → IsLeased a t owner expires rows
      → IsLeased a t owner expires (complete_row status error rows o).1
  unfolding complete_row
  complete_row-IsLeased a' t' status error rows none other f l = l
  complete_row-IsLeased a' t' status error rows (some row) other f l =
      other_saved-IsLeased a' t' row _ rows other f refl refl l

  complete-IsLeased :
      (fails : Bool) (a' t' status error : String) (rows : List AgentTask)
      → (str_eq a' a && str_eq t' t) ≡ false
      → IsLeased a t owner expires rows
      → IsLeased a t owner expires (complete_task fails a' t' status error rows).1
  unfolding complete_task
  complete-IsLeased true a' t' status error rows other l = l
  complete-IsLeased false a' t' status error rows other l =
      complete_row-IsLeased a' t' status error rows _ other refl l

  apply_event-IsLeased :
      (e : TaskEvent) (rows : List AgentTask)
      → Respects a t owner expires e
      → IsLeased a t owner expires rows
      → IsLeased a t owner expires (apply_event e rows)
  unfolding apply_event
  apply_event-IsLeased (enqueue fails r m) rows h l = enqueue-IsLeased fails r m rows l
  apply_event-IsLeased (acquire fails a' t' other seconds now) rows h l =
      acquire-IsLeased fails a' t' other seconds now rows h.0 h.1 l
  apply_event-IsLeased (complete fails a' t' status error) rows h l =
      complete-IsLeased fails a' t' status error rows h l

  -- Whatever other processes do before the lease expires, short of completing the task, the lease
  -- stays with its owner.
  pub apply_events-IsLeased :
      (es : List TaskEvent) (rows : List AgentTask)
      → All (Respects a t owner expires) es
      → IsLeased a t owner expires rows
      → IsLeased a t owner expires (apply_events es rows)
  unfolding apply_events
  apply_events-IsLeased [] rows h l = l
  apply_events-IsLeased (e ∷ es) rows h l =
      apply_events-IsLeased es (apply_event e rows) h.1 (apply_event-IsLeased e rows h.0 l)
