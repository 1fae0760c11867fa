-- ===== src/Monitoring/WatchLoop/Runs.antt =====
-- How often one iteration runs the orchestrator.
use multiagents.Prelude.{
  ℕ, ◌+◌, ◌≡◌, refl, sym, ap, ◌∙◌, Option, none, some, List, [], ◌∷◌, String, str_eq, leb,
  if◌then◌else◌, Bool-cases, inl, inr, arith,
}
use multiagents.Exec.{Result, ok, err, Exec, pure, ◌>>=◌, Ensures, Ensures-bind, Ensures-imp}
use multiagents.Monitoring.Contracts.{MonitorAlert, IntentLifecycle, ControlResult}
use multiagents.Monitoring.Lifecycle.{Manager, find_intent, is_failed, begin_replan, finish_replan}
use multiagents.Monitoring.WatchLoop.{
  LoopState, Handled, manage, intent, control, reentry_request, close_reentry, reenter, defer,
  reentered, handle_action, handle_actions, wrap,
}
use multiagents.Monitoring.Records.{WatchLoopTriggerRecord, RunRequest, WatchError, key_error}

module _ {D : Type 0} where
  -- the records of a trigger type
  unfoldable pub count_type : String → List (WatchLoopTriggerRecord D) → ℕ
  count_type t [] = 0
  count_type t (r ∷ rs) = (if str_eq r.trigger_type t then 1 else 0) + count_type t rs

  module _ {W X : Type 0} (run_control : RunRequest D → Exec W X ControlResult) (runs : W → ℕ)
      (counts : (r : RunRequest D) (w : W) → runs (run_control r w).1 ≡ runs w + 1)
      (scenario_id : String) (scenario_tags : List String) (snapshot : String) where
    -- the orchestrator has run so often more
    abbrev pub After : ℕ → LoopState W → LoopState W → Type 0
    After n s s' = runs s'.world ≡ runs s.world + n

    manage-After :
        {A : Type 0} (f : Manager → Option (A × Manager)) (s : LoopState W)
        → Ensures (λ _ s'. After 0 s s') (manage {W = W} {X = X} f s)
    unfolding manage
    manage-After {A} f s = managed (f s.manager)
      where
        managed :
            (o : Option (A × Manager))
            → Ensures {E = WatchError X} {A = A}
                (λ _ s'. After 0 s s')
                (elim o [
                  | none ↦ (err key_error, s)
                  | some (a, m) ↦ (ok a, record s { manager = m })
                ])
        managed none = tt
        managed (some (a, m)) = omega arith

    intent-After :
        (i : String) (s : LoopState W) → Ensures (λ _ s'. After 0 s s') (intent {W = W} {X = X} i s)
    unfolding intent
    intent-After i s =
        manage-After (λ m. elim (find_intent i m.lifecycles) [ none ↦ none | some l ↦ some (l, m) ])
          s

    control-After :
        (request : RunRequest D) (s : LoopState W)
        → Ensures
            (λ _ s'. After 1 s s')
            (control run_control scenario_id scenario_tags snapshot request s)
    unfolding control wrap
    control-After request s = controlled (run_control request s.world) refl
      where
        controlled :
            (o : Result X ControlResult × W)
            → run_control request s.world ≡ o
            → Ensures (λ _ s'. After 1 s s') (wrap o.0, record s { world = o.1 })
        controlled (ok a, w) e = ap (λ o. runs o.1) (sym e) ∙ counts request s.world
        controlled (err x, w) e = tt

    reenter-After :
        (i : String) (alert : MonitorAlert D) (s : LoopState W)
        → Ensures
            (λ r s'. (r.trigger_type ≡ "monitor") × After 1 s s')
            (reenter run_control scenario_id scenario_tags snapshot i alert s)
    unfolding reenter
    reenter-After i alert s =
        Ensures-bind _ (manage (begin_replan i alert))
          (λ _.
            control run_control scenario_id scenario_tags snapshot
              (reentry_request run_control scenario_id scenario_tags snapshot alert)
            >>= close_reentry run_control scenario_id scenario_tags snapshot i alert)
          s _ (manage-After (begin_replan i alert) s)
          λ _ s1 h1.
            Ensures-bind _
              (control run_control scenario_id scenario_tags snapshot
                (reentry_request run_control scenario_id scenario_tags snapshot alert))
              (close_reentry run_control scenario_id scenario_tags snapshot i alert) s1 _
              (control-After (reentry_request run_control scenario_id scenario_tags snapshot alert)
                s1)
              λ result s2 h2.
                Ensures-bind _ (manage (finish_replan i result)) _ s2 _
                  (manage-After (finish_replan i result) s2)
                  λ l s3 h3. (refl, omega (arith, h1, h2, h3))

    -- The orchestrator has run once for each record of a reentry.
    abbrev Counted : LoopState W → Handled D → LoopState W → Type 0
    Counted s h s' = After (count_type "monitor" h.records) s s'

    module _ (limit count : ℕ) (i : String) (alert : MonitorAlert D)
        (same more : Exec (LoopState W) (WatchError X) (Handled D))
        (same_counted : (s : LoopState W) → Ensures (Counted s) (same s))
        (more_counted : (s : LoopState W) → Ensures (Counted s) (more s)) where
      put_off :
          (l : IntentLifecycle) (s : LoopState W) (h : Handled D) (s' : LoopState W)
          → Counted s h s'
          → Counted s (defer run_control scenario_id scenario_tags snapshot alert l h) s'
      unfolding count_type
      put_off l s h s' c = omega (arith, c)

      made :
          (t : WatchLoopTriggerRecord D) (s s1 : LoopState W) (h : Handled D) (s' : LoopState W)
          → t.trigger_type ≡ "monitor"
          → After 1 s s1
          → Counted s1 h s'
          → Counted s (reentered run_control scenario_id scenario_tags snapshot t h) s'
      unfolding count_type
      made t s s1 h s' type one c = rw type (omega (arith, one, c))

      handle_action-Counted :
          (l : IntentLifecycle) (s : LoopState W)
          → Ensures (Counted s) (
              handle_action run_control scenario_id scenario_tags snapshot limit count i alert same
                more l s)
      unfolding handle_action
      handle_action-Counted l s = elim (Bool-cases (is_failed l.status)) [
        | inl gone ↦ rw gone (same_counted s)
        | inr watched ↦ elim (Bool-cases (leb limit count)) [
          | inl spent ↦
              rw (watched, spent)
                (Ensures-bind _ same
                  (λ h. pure (defer run_control scenario_id scenario_tags snapshot alert l h)) s _
                  (same_counted s) (λ h s' c. put_off l s h s' c))
          | inr left ↦
              rw (watched, left)
                (Ensures-bind _ (reenter run_control scenario_id scenario_tags snapshot i alert)
                  (λ r. more >>= λ h.
                    pure (reentered run_control scenario_id scenario_tags snapshot r h))
                  s _ (reenter-After i alert s)
                  λ r s1 t.
                    Ensures-bind _ more
                      (λ h. pure (reentered run_control scenario_id scenario_tags snapshot r h)) s1
                      _ (more_counted s1) (λ h s' c. made r s s1 h s' t.0 t.1 c))
        ]
      ]

    pub handle_actions-Counted :
        (limit count : ℕ) (actions : List (String × MonitorAlert D)) (s : LoopState W)
        → Ensures
            (λ h s'. After (count_type "monitor" h.records) s s')
            (handle_actions run_control scenario_id scenario_tags snapshot limit count actions s)
    unfolding handle_actions
    handle_actions-Counted limit count [] s = unfold count_type in omega arith
    handle_actions-Counted limit count ((i, alert) ∷ actions) s =
        Ensures-bind _ (intent i)
          (handle_action run_control scenario_id scenario_tags snapshot limit count i alert
            (handle_actions run_control scenario_id scenario_tags snapshot limit count actions)
            (handle_actions run_control scenario_id scenario_tags snapshot limit (count + 1)
              actions))
          s (λ _ s1. After 0 s s1) (intent-After i s)
          λ l s1 h1.
            Ensures-imp
              (handle_action run_control scenario_id scenario_tags snapshot limit count i alert _ _
                l s1)
              (λ h s' c. omega (arith, h1, c))
              (handle_action-Counted limit count i alert _ _
                (handle_actions-Counted limit count actions)
                (handle_actions-Counted limit (count + 1) actions) l s1)
