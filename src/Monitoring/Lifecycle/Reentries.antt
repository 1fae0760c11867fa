-- ===== src/Monitoring/Lifecycle/Reentries.antt =====
-- Which alerts `observe` turns into reentries.
use multiagents.Prelude.{
  Bool, true, false, ◌&&◌, ◌||◌, Option, none, some, List, [], ◌∷◌, map, String, str_eq, str_eq_iff,
  ◌≡◌, refl, All, All-imp, Bool-cases, Option-cases, inl, inr, arith,
}
use multiagents.Monitoring.Contracts.{
  MonitorAlert, IntentStatus, IntentBinding, same_binding→eq, same_binding_self, IntentLifecycle,
}
use multiagents.Monitoring.Lifecycle.{
  has_binding, find_intent, put_intent, set_status, alert_binding, active_bindings, intersect,
  last_with, degrade_found, degrade_for, schedule, monitor_lifecycle,
}

-- No binding of the list is in `seen` or comes twice.
abbrev pub Distinct : List IntentBinding → List IntentBinding → Type 0
Distinct seen [] = Unit
Distinct seen (b ∷ bs) = (has_binding seen b ≡ false) × Distinct (b ∷ seen) bs

pub has_binding-intersect :
    (bs keep : List IntentBinding) (b : IntentBinding)
    → has_binding (intersect bs keep) b ≡ (has_binding bs b && has_binding keep b)
unfolding intersect
has_binding-intersect [] keep b = refl
has_binding-intersect (c ∷ bs) keep b =
    ground (arith, has_binding-intersect bs keep b, same_binding→eq b c)

-- the id is one of the dictionary's keys
abbrev pub is_known : String → List IntentLifecycle → Bool
is_known i ls = elim (find_intent i ls) [ none ↦ false | some _ ↦ true ]

is_known-set_status :
    (i j : String) (status : IntentStatus) (ls : List IntentLifecycle)
    → is_known i (set_status j status ls) ≡ is_known i ls
unfolding find_intent set_status
is_known-set_status i j status [] = refl
is_known-set_status i j status (l ∷ ls) = ground (arith, is_known-set_status i j status ls)

is_known-put_intent :
    (i : String) (new : IntentLifecycle) (ls : List IntentLifecycle)
    → is_known i (put_intent new ls) ≡ (str_eq new.intent_id i || is_known i ls)
unfolding find_intent put_intent
is_known-put_intent i new [] = ground arith
is_known-put_intent i new (l ∷ ls) = ground (
  arith,
  is_known-put_intent i new ls,
  str_eq_iff l.intent_id new.intent_id,
  str_eq_iff new.intent_id i,
  str_eq_iff l.intent_id i,
)

last_with-is_known :
    (b : IntentBinding) (ls : List IntentLifecycle) {l : IntentLifecycle}
    → last_with b ls ≡ some l
    → is_known l.intent_id ls ≡ true
unfolding last_with find_intent
last_with-is_known b [] h = ground arith
last_with-is_known b (k ∷ ls) {l} h =
    ground (arith, last_with-is_known b ls {l = l}, str_eq_iff k.intent_id l.intent_id)

degrade_found-is_known :
    (b : IntentBinding) (ls : List IntentLifecycle) (o : Option IntentLifecycle) {i : String}
    {ls' : List IntentLifecycle} (j : String)
    → last_with b ls ≡ o
    → degrade_found b ls o ≡ some (i, ls')
    → (is_known i ls' ≡ true) × (is_known j ls ≡ true → is_known j ls' ≡ true)
unfolding degrade_found
degrade_found-is_known b ls none {i} j e h = ground (
  arith,
  is_known-put_intent i (monitor_lifecycle b) ls,
  is_known-put_intent j (monitor_lifecycle b) ls,
  str_eq_iff i i,
)
degrade_found-is_known b ls (some l) {i} j e h = ground (
  arith,
  last_with-is_known b ls e,
  is_known-set_status i l.intent_id IntentStatus.degraded ls,
  is_known-set_status j l.intent_id IntentStatus.degraded ls,
)

degrade_for-is_known :
    (b : IntentBinding) (ls : List IntentLifecycle) {i : String} {ls' : List IntentLifecycle}
    (j : String)
    → degrade_for b ls ≡ some (i, ls')
    → (is_known i ls' ≡ true) × (is_known j ls ≡ true → is_known j ls' ≡ true)
unfolding degrade_for
degrade_for-is_known b ls j h = degrade_found-is_known b ls (last_with b ls) j refl h

module _ {D : Type 0} where
  abbrev pub entry_binding : String × MonitorAlert D → IntentBinding
  entry_binding e = alert_binding e.1

  -- What the second loop has scheduled, against the bindings that it had to leave out.
  pub record IsScheduled (skipped replanned scheduled alerted : List IntentBinding)
      (ls : List IntentLifecycle) (r : List (String × MonitorAlert D) × List IntentLifecycle)
      : Type 0 where
    pub fresh :
        All
          (λ e.
            (has_binding skipped (entry_binding e) ≡ false)
            × (has_binding replanned (entry_binding e) ≡ false))
          r.0
    pub distinct : Distinct scheduled (map entry_binding r.0)
    pub reported : All (λ e. has_binding alerted (entry_binding e) ≡ true) r.0
    pub kept : (j : String) → is_known j ls ≡ true → is_known j r.1 ≡ true
    pub listed : All (λ e. is_known e.0 r.1 ≡ true) r.0

  module _ (skipped replanned : List IntentBinding) where
    more_alerts :
        (scheduled alerted : List IntentBinding) (b : IntentBinding) {ls ls' : List IntentLifecycle}
        {r : List (String × MonitorAlert D) × List IntentLifecycle}
        → ((j : String) → is_known j ls ≡ true → is_known j ls' ≡ true)
        → IsScheduled skipped replanned scheduled alerted ls' r
        → IsScheduled skipped replanned scheduled (b ∷ alerted) ls r
    more_alerts scheduled alerted b {r = r} keep s = record {
      fresh = s.fresh;
      distinct = s.distinct;
      reported = All-imp r.0 (λ e h. ground (arith, h)) s.reported;
      kept = λ j h. s.kept j (keep j h);
      listed = s.listed;
    }

    -- an alert that is due joins the reentries
    due_alert :
        (scheduled alerted : List IntentBinding) (alert : MonitorAlert D) (i : String)
        {ls ls' : List IntentLifecycle} {r : List (String × MonitorAlert D) × List IntentLifecycle}
        → has_binding skipped (alert_binding alert) ≡ false
        → (has_binding replanned (alert_binding alert)
            || has_binding scheduled (alert_binding alert))
          ≡ false
        → is_known i ls' ≡ true
        → ((j : String) → is_known j ls ≡ true → is_known j ls' ≡ true)
        → IsScheduled skipped replanned (alert_binding alert ∷ scheduled) alerted ls' r
        → IsScheduled skipped replanned scheduled
            (alert_binding alert ∷ alerted)
            ls
            ((i, alert) ∷ r.0, r.1)
    due_alert scheduled alerted alert i {r = r} out quiet there keep s = record {
      fresh = ((out, ground (arith, quiet)), s.fresh);
      distinct = (ground (arith, quiet), s.distinct);
      reported = (
        ground (arith, same_binding_self (alert_binding alert)),
        All-imp r.0 (λ e h. ground (arith, h)) s.reported,
      );
      kept = λ j h. s.kept j (keep j h);
      listed = (s.kept i there, s.listed);
    }

    pub schedule-IsScheduled :
        (alerts : List (MonitorAlert D)) (scheduled : List IntentBinding)
        (ls : List IntentLifecycle)
        → IsScheduled skipped replanned scheduled
            (active_bindings alerts)
            ls
            (schedule skipped replanned scheduled alerts ls)
    unfolding schedule
    schedule-IsScheduled [] scheduled ls = record {
      fresh = tt;
      distinct = tt;
      reported = tt;
      kept = λ j h. h;
      listed = tt;
    }
    schedule-IsScheduled (alert ∷ alerts) scheduled ls =
        let b : IntentBinding = alert_binding alert in
        elim (Bool-cases (has_binding skipped b)) [
          | inl left_out ↦ rw left_out (
              more_alerts scheduled (active_bindings alerts) b (λ j h. h)
                (schedule-IsScheduled alerts scheduled ls))
          | inr out ↦ elim (Option-cases (degrade_for b ls)) [
            | inl gone ↦
                rw (out, gone)
                  (more_alerts scheduled (active_bindings alerts) b (λ j h. h)
                    (schedule-IsScheduled alerts scheduled ls))
            | inr (found, e) ↦
                elim (Bool-cases (has_binding replanned b || has_binding scheduled b)) [
                  | inl again ↦
                      rw (out, e, again)
                        (more_alerts scheduled (active_bindings alerts) b
                          (λ j. (degrade_for-is_known b ls j e).1)
                          (schedule-IsScheduled alerts scheduled found.1))
                  | inr due ↦
                      rw (out, e, due)
                        (due_alert scheduled (active_bindings alerts) alert found.0 out due
                          (degrade_for-is_known b ls found.0 e).0
                          (λ j. (degrade_for-is_known b ls j e).1)
                          (schedule-IsScheduled alerts (b ∷ scheduled) found.1))
                ]
          ]
        ]
