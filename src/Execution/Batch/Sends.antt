-- ===== src/Execution/Batch/Sends.antt =====
-- What a batch sends to the gateway.
use mathlib.Core.Path.{subst}
use multiagents.Prelude.{
  ◌≡◌, refl, sym, ap, ◌∙◌, Option, none, some, List, [], ◌∷◌, ◌++◌, map, append_assoc, append-nil,
  String,
}
use multiagents.Exec.{
  Result, ok, err, Exec, pure, raise, resume, try_then, ◌>>=◌, Ensures, Ensures-bind, Ensures-ok,
  Leads, Ensures-try,
}
use multiagents.Execution.Gateway.{Policy, DispatchResult, Response, ExecutionDecisionError}
use multiagents.Execution.Dispatch.{judge}
use multiagents.Execution.Batch.{
  AssuranceVerdict, PolicyExecutionBatch, Raised, decided, index_error, raised, call, wrap, decide,
  assure, accept, empty_batch, post_apply_assurance_verdict, dispatch_single_policy,
  assurance_verdict, after_dispatch, after_raise, run_policy, run_from, run,
}

-- a world with a record of the policies that the gateway was sent
module _ {W X : Type 0} (dispatch_policy : Policy → Exec W X Response)
    (evaluate : Policy → Exec W X AssuranceVerdict) (sent : W → List String)
    (sends : (p : Policy) (w : W) → sent (dispatch_policy p w).1 ≡ sent w ++ p.policy_id ∷ [])
    (reads : (p : Policy) (w : W) → sent (evaluate p w).1 ≡ sent w) where
  abbrev Sent : {A : Type 0} → List String → A → W → Type 0
  Sent ids a w' = sent w' ≡ ids

  dispatch_single_policy-Leads :
      (p : Policy) (w : W)
      → Leads
          (Sent (sent w ++ p.policy_id ∷ []))
          (Sent (sent w ++ p.policy_id ∷ []))
          (dispatch_single_policy dispatch_policy evaluate p w)
  unfolding dispatch_single_policy call decide wrap try_then ◌>>=◌
  dispatch_single_policy-Leads p w = answered (dispatch_policy p w) (sends p w)
    where
      decided_on :
          (ids : List String) (w' : W) (r : Result ExecutionDecisionError (DispatchResult × _))
          → sent w' ≡ ids
          → Leads (Sent ids) (Sent ids) (decide {W = W} {X = X} r w')
      decided_on ids w' (ok d) e = e
      decided_on ids w' (err x) e = e

      answered :
          (r : Result X Response × W)
          → sent r.1 ≡ sent w ++ p.policy_id ∷ []
          → Leads
              (Sent (sent w ++ p.policy_id ∷ []))
              (Sent (sent w ++ p.policy_id ∷ []))
              (resume (wrap r.0) (λ a. decide (judge p a)) raise r.1)
      answered (ok a, w') e = decided_on _ w' (judge p a) e
      answered (err x, w') e = e

  assurance_verdict-Ensures :
      (p : Policy) (v : Option AssuranceVerdict) (w : W)
      → Ensures (Sent (sent w)) (assurance_verdict dispatch_policy evaluate p v w)
  unfolding assurance_verdict call wrap
  assurance_verdict-Ensures p (some v) w = refl
  assurance_verdict-Ensures p none w = sampled (evaluate p w) (reads p w)
    where
      sampled :
          (r : Result X AssuranceVerdict × W)
          → sent r.1 ≡ sent w
          → Ensures (Sent (sent w)) (wrap r.0, r.1)
      sampled (ok v, w') e = e
      sampled (err x, w') e = tt

  run_policy-Ensures :
      (p : Policy) (b : PolicyExecutionBatch) (w : W)
      → Ensures (Sent (sent w ++ p.policy_id ∷ [])) (run_policy dispatch_policy evaluate p b w)
  unfolding run_policy after_dispatch after_raise
  run_policy-Ensures p b w =
      Ensures-try _ (dispatch_single_policy dispatch_policy evaluate p)
        (after_dispatch dispatch_policy evaluate p b) (after_raise dispatch_policy evaluate p b) w _
        _ (dispatch_single_policy-Leads p w)
        (λ r w' q.
          Ensures-bind _
            (assurance_verdict dispatch_policy evaluate p (post_apply_assurance_verdict p r.0))
            (λ v. pure (assure p (accept p r.0 r.1 b) v)) w' _
            (assurance_verdict-Ensures p (post_apply_assurance_verdict p r.0) w')
            (λ v w'' e. e ∙ q))
        caught
    where
      caught :
          (x : Raised X) (w' : W)
          → sent w' ≡ sent w ++ p.policy_id ∷ []
          → Ensures
              (Sent (sent w ++ p.policy_id ∷ []))
              (after_raise dispatch_policy evaluate p b x w')
      caught (decided e) w' q = q
      caught index_error w' q = tt
      caught (raised x) w' q = tt

  run_from-Ensures :
      (ps : List Policy) (b : PolicyExecutionBatch) (w : W)
      → Ensures
          (Sent (sent w ++ map Policy.policy_id ps))
          (run_from dispatch_policy evaluate b ps w)
  unfolding run_from
  run_from-Ensures [] b w = sym (append-nil (sent w))
  run_from-Ensures (p ∷ ps) b w =
      Ensures-bind _ (run_policy dispatch_policy evaluate p b)
        (λ b'. run_from dispatch_policy evaluate b' ps) w _ (run_policy-Ensures p b w)
        λ b' w' e.
          subst (λ ids. Ensures (Sent ids) (run_from dispatch_policy evaluate b' ps w'))
            (ap (λ ids. ids ++ map Policy.policy_id ps) e
              ∙ append_assoc (sent w) (p.policy_id ∷ []) (map Policy.policy_id ps))
            (run_from-Ensures ps b' w')

  -- In a world that records what the gateway is sent, and where an assurance sends nothing, a batch
  -- that returns has sent every policy exactly once, in the order of the policies.
  pub run_sends_once :
      (ps : List Policy) (w w' : W) (b : PolicyExecutionBatch)
      → run dispatch_policy evaluate ps w ≡ (ok b, w')
      → sent w' ≡ sent w ++ map Policy.policy_id ps
  unfolding run
  run_sends_once ps w w' b e =
      Ensures-ok (Sent (sent w ++ map Policy.policy_id ps))
        (run_from dispatch_policy evaluate empty_batch ps w) (run_from-Ensures ps empty_batch w) e
