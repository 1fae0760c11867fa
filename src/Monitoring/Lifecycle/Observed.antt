-- ===== src/Monitoring/Lifecycle/Observed.antt =====
-- What one `observe` promises of its reentries.
use multiagents.Prelude.{
  true, false, ◌&&◌, ◌||◌, some, List, [], ◌∷◌, ◌++◌, map, String, ◌≡◌, refl, Elem, here, there,
  All, All-imp, Option-cases, inl, inr, arith,
}
use mathlib.Core.Option.{some-injective}
use mathlib.Core.Path.{subst}
use multiagents.Monitoring.Contracts.{MonitorAlert, IntentBinding, IntentLifecycle}
use multiagents.Monitoring.Lifecycle.{
  Manager, has_binding, find_intent, active_bindings, intersect, skipped_bindings, settle, observe,
}
use multiagents.Monitoring.Lifecycle.Reentries.{
  Distinct, is_known, has_binding-intersect, entry_binding, IsScheduled, schedule-IsScheduled,
}

has_binding-append :
    (xs ys : List IntentBinding) (b : IntentBinding)
    → has_binding (xs ++ ys) b ≡ (has_binding xs b || has_binding ys b)
has_binding-append [] ys b = refl
has_binding-append (x ∷ xs) ys b = ground (arith, has_binding-append xs ys b)

-- the bindings of each skipped intent are among the skipped bindings
skipped_bindings-mem :
    (ids : List String) (ls : List IntentLifecycle) (bs : List IntentBinding) (i : String)
    (l : IntentLifecycle) (b : IntentBinding)
    → Elem i ids
    → find_intent i ls ≡ some l
    → skipped_bindings ids ls ≡ some bs
    → has_binding bs b ≡ false
    → has_binding l.bindings b ≡ false
unfolding skipped_bindings
skipped_bindings-mem [] ls bs i l b m f h out = elim m [ ]
skipped_bindings-mem (k ∷ ids) ls bs _ l b here f h out =
    elim (Option-cases (skipped_bindings ids ls)) [
      | inl none' ↦ absurd (ground (arith, none', f, h))
      | inr (rest, e) ↦
          let eq : some (l.bindings ++ rest) ≡ some bs = ground (arith, e, f, h) in
          ground (arith, eq, has_binding-append l.bindings rest b, out)
    ]
skipped_bindings-mem (k ∷ ids) ls bs i l b (there m) f h out =
    elim (Option-cases (find_intent k ls)) [
      | inl unknown ↦ absurd (ground (arith, unknown, h))
      | inr (first, known) ↦ elim (Option-cases (skipped_bindings ids ls)) [
        | inl unknown ↦ absurd (ground (arith, unknown, known, h))
        | inr (rest, e) ↦
            let eq : some (first.bindings ++ rest) ≡ some bs = ground (arith, e, known, h) in
            skipped_bindings-mem ids ls rest i l b m f e
              (ground (arith, eq, has_binding-append first.bindings rest b, out))
      ]
    ]

module _ {D : Type 0} where
  pub record IsObserved (alerts : List (MonitorAlert D)) (skip : List String) (m m' : Manager)
      (reentries : List (String × MonitorAlert D)) : Type 0 where
    pub distinct : Distinct [] (map entry_binding reentries)
    pub alerted : All (λ e. has_binding (active_bindings alerts) (entry_binding e) ≡ true) reentries
    pub not_again : All (λ e. has_binding m.replanned (entry_binding e) ≡ false) reentries
    pub not_skipped :
        (i : String) (l : IntentLifecycle)
        → Elem i skip
        → find_intent i m.lifecycles ≡ some l
        → All (λ e. has_binding l.bindings (entry_binding e) ≡ false) reentries
    pub listed : All (λ e. is_known e.0 m'.lifecycles ≡ true) reentries
    pub remembered :
        (b : IntentBinding)
        → has_binding m'.replanned b
          ≡ (has_binding m.replanned b && has_binding (active_bindings alerts) b)

  -- the result that `observe` puts together, once the skipped bindings are known
  computed-IsObserved :
      (alerts : List (MonitorAlert D)) (skip : List String) (m : Manager)
      (skipped : List IntentBinding)
      → skipped_bindings skip m.lifecycles ≡ some skipped
      → (r : List (String × MonitorAlert D) × List IntentLifecycle)
      → IsScheduled skipped
          (intersect m.replanned (active_bindings alerts))
          []
          (active_bindings alerts)
          (settle skip (active_bindings alerts) m.lifecycles)
          r
      → IsObserved alerts skip m
          (record { lifecycles = r.1; replanned = intersect m.replanned (active_bindings alerts) })
          r.0
  computed-IsObserved alerts skip m skipped e r s = record {
    distinct = s.distinct;
    alerted = s.reported;
    not_again = not_replanned r.0 s.fresh s.reported;
    not_skipped = λ i l at f.
        All-imp r.0
          (λ entry h.
            skipped_bindings-mem skip m.lifecycles skipped i l (entry_binding entry) at f e h.0)
          s.fresh;
    listed = s.listed;
    remembered = has_binding-intersect m.replanned (active_bindings alerts);
  }
    where
      not_replanned :
          (es : List (String × MonitorAlert D))
          → All
              (λ e.
                (has_binding skipped (entry_binding e) ≡ false)
                × (has_binding (intersect m.replanned (active_bindings alerts)) (entry_binding e)
                    ≡ false))
              es
          → All (λ e. has_binding (active_bindings alerts) (entry_binding e) ≡ true) es
          → All (λ e. has_binding m.replanned (entry_binding e) ≡ false) es
      not_replanned [] f a = tt
      not_replanned (x ∷ es) f a = (
        ground (
          arith,
          has_binding-intersect m.replanned (active_bindings alerts) (entry_binding x),
          f.0.1,
          a.0,
        ),
        not_replanned es f.1 a.1,
      )

  -- The reentries of an observation are for distinct bindings, each of which an alert reports. None
  -- is for a binding whose replanning has begun and that has had an alert ever since, or for a
  -- binding of a skipped intent. Each is for an intent that the manager knows. A binding stays
  -- under replanning exactly while it has alerts.
  pub observe-IsObserved :
      (alerts : List (MonitorAlert D)) (skip : List String) (m m' : Manager)
      (reentries : List (String × MonitorAlert D))
      → observe alerts skip m ≡ some (reentries, m')
      → IsObserved alerts skip m m' reentries
  unfolding observe
  observe-IsObserved alerts skip m m' reentries h =
      elim (Option-cases (skipped_bindings skip m.lifecycles)) [
        | inl unknown ↦ absurd (ground (arith, unknown, h))
        | inr (skipped, e) ↦
            subst (λ r. IsObserved alerts skip m r.1 r.0)
              (some-injective _ _ (rw (e, observe) at h))
              (computed-IsObserved alerts skip m skipped e _ (
                schedule-IsScheduled skipped (intersect m.replanned (active_bindings alerts)) alerts
                  [] (settle skip (active_bindings alerts) m.lifecycles)))
      ]
