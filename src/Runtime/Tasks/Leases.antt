-- ===== src/Runtime/Tasks/Leases.antt =====
-- A lease keeps a task to its owner until it expires.
use multiagents.Prelude.{
  ℕ, ◌+◌, ◌<◌, ◌≡◌, ◌≢◌, refl, ap, Bool, true, false, ◌||◌, Option, none, some, List, String, max,
  is_empty, All, arith,
}
use multiagents.Runtime.Tasks.{
  AgentTask, find_task, save_task, leased, completed, acquire_task_lease, complete_task, lease_row,
  is_terminal, completed_status,
}
use multiagents.Runtime.Tasks.Rows.{find-save_self, find-is_task}
use multiagents.Runtime.Tasks.Events.{
  TaskEvent, apply_events, Respects, IsLeased, refused_while_leased, apply_events-IsLeased,
}

module _ (a t owner : String) (expires : ℕ) (named : is_empty owner ≡ false) where
  leased_row :
      (seconds now : ℕ) (row : AgentTask) (rows rows' : List AgentTask)
      → lease_row owner seconds now rows (some row) ≡ (true, rows')
      → rows' ≡ save_task (leased row owner seconds now) rows
  unfolding lease_row
  leased_row seconds now row rows rows' h = ground arith

  granted-IsLeased :
      (seconds now : ℕ) (rows rows' : List AgentTask) (o : Option AgentTask)
      → now + max 1 seconds ≡ expires
      → find_task a t rows ≡ o
      → lease_row owner seconds now rows o ≡ (true, rows')
      → IsLeased a t owner expires rows'
  granted-IsLeased seconds now rows rows' none e f h = absurd (unfold lease_row in ground arith)
  granted-IsLeased seconds now rows rows' (some row) e f h =
      let (p, q) = find-is_task a t row rows f in
      rw (leased_row seconds now row rows rows' h) (record {
        row = leased row owner seconds now;
        found = find-save_self a t (leased row owner seconds now) row rows p q f;
        owned = refl;
        until = ap some e;
      })

  granted_row :
      (seconds now : ℕ) (rows rows' : List AgentTask)
      → acquire_task_lease false a t owner seconds now rows ≡ (true, rows')
      → lease_row owner seconds now rows (find_task a t rows) ≡ (true, rows')
  unfolding acquire_task_lease
  granted_row seconds now rows rows' h = ground arith

-- Once a lease on a task is granted, then whatever transactions other processes run, refused by
-- the database or not, as long as none of them completes the task and the owner does not renew:
-- before the lease expires every other process is refused the task, and changes nothing by asking.
pub lease_exclusive :
    (a t owner other : String) (seconds now : ℕ) (rows rows' : List AgentTask) (es : List TaskEvent)
    (fails : Bool) (seconds' later : ℕ)
    → is_empty owner ≡ false
    → acquire_task_lease false a t owner seconds now rows ≡ (true, rows')
    → All (Respects a t owner (now + max 1 seconds)) es
    → later < now + max 1 seconds
    → other ≢ owner
    → acquire_task_lease fails a t other seconds' later (apply_events es rows')
      ≡ (false, apply_events es rows')
lease_exclusive a t owner other seconds now rows rows' es fails seconds' later named h calm lt ne =
    refused_while_leased a t owner _ named fails other seconds' later _ lt ne (
      apply_events-IsLeased a t owner _ named es rows' calm (
        granted-IsLeased a t owner _ named seconds now rows rows' _ refl refl
          (granted_row a t owner (now + max 1 seconds) named seconds now rows rows' h)))

-- A completion does not look at the owner: whoever reports the end of a task that is leased to
-- `owner`, the next process to ask is granted it, unless the task is then in a final state.
pub stale_completion :
    (a t owner other status error : String) (expires seconds now : ℕ) (rows : List AgentTask)
    (l : IsLeased a t owner expires rows)
    → (is_empty a || is_empty t || is_empty other) ≡ false
    → is_terminal (completed_status l.row status) ≡ false
    → (acquire_task_lease false a t other seconds now
        (complete_task false a t status error rows).1).0
      ≡ true
unfolding complete_task
stale_completion a t owner other status error expires seconds now rows l named open_ =
    let (p, q) = find-is_task a t l.row rows l.found in
    unfold acquire_task_lease in
    rw (l.found, named)
      (rw (find-save_self a t (completed l.row status error) l.row rows p q l.found) (ground arith))
