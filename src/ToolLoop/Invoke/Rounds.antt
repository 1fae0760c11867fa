-- ===== src/ToolLoop/Invoke/Rounds.antt =====
-- The iterations keep the limits, and ask the model once each.
use multiagents.Prelude.{
  ℕ, zero, suc, ◌+◌, ◌≤◌, refl, All, ◌≡◌, Option, none, some, List, [], ◌∷◌, String, arith,
}
use multiagents.Exec.{
  Result, ok, err, Exec, pure, raise, resume, ◌>>=◌, ◌>>◌, Keeps, Keeps-bind, Keeps-after,
}
use multiagents.Context.Messages.{ToolCall, AiMessage, Message, ai}
use multiagents.ToolLoop.Parse.{Raised, Decoder, ResponseModel}
use multiagents.ToolLoop.Loop.{
  Settings, LlmOutput, ai_output, other_output, Services, LoopState, LoopError,
}
use multiagents.ToolLoop.Calls.{appended, run_calls}
use multiagents.ToolLoop.Calls.Limits.{IsLimited, appended-IsLimited}
use multiagents.ToolLoop.Calls.Kept.{run_calls-IsLimited}
use multiagents.ToolLoop.Calls.Told.{IsQuiet, run_calls-HasAsked}
use multiagents.ToolLoop.Invoke.{
  answer_with, go_on, prepare, answered, ask, calls_of, final_response, handle_calls, iteration,
  iterations,
}

module _ {W M : Type 0} (settings : Settings) (services : Services W) (model : ResponseModel M)
    (decoder : Decoder) where
  -- a final answer leaves the state as it is, and so does stopping at one
  answer_with-Keeps : (P : LoopState W → Type 0) (r : Result Raised M) → Keeps P (answer_with r)
  unfolding answer_with
  answer_with-Keeps P (ok v) s h = h
  answer_with-Keeps P (err e) s h = h

  go_on-Keeps :
      (P : LoopState W → Type 0) (next : Exec (LoopState W) LoopError (Option M)) (o : Option M)
      → Keeps P next
      → Keeps P (go_on next o)
  unfolding go_on
  go_on-Keeps P next (some v) k s h = h
  go_on-Keeps P next none k s h = k s h

  answered-IsLimited :
      (r : Result Raised LlmOutput) → Keeps (IsLimited settings) (answered settings services r)
  unfolding answered
  answered-IsLimited (ok (ai_output m)) s h =
      appended-IsLimited settings (ai m) s (λ _. refl) refl h
  answered-IsLimited (ok (other_output t)) s h = h
  answered-IsLimited (err e) s h = h

  handle_calls-IsLimited :
      (m : AiMessage) (r : Result Raised (List ToolCall))
      → Keeps (IsLimited settings) (handle_calls settings services model decoder m r)
  unfolding handle_calls ◌>>◌
  handle_calls-IsLimited m (err e) s h = h
  handle_calls-IsLimited m (ok (c ∷ calls)) s h =
      Keeps-bind (IsLimited settings) (run_calls settings services (c ∷ calls)) (λ _. pure none)
        (run_calls-IsLimited settings services (c ∷ calls)) (λ _ _ k. k) s h
  handle_calls-IsLimited m (ok []) s h =
      answer_with-Keeps (IsLimited settings) (final_response settings services model decoder m) s h

  iteration-IsLimited :
      (agent : String)
      → Keeps (IsLimited settings) (iteration settings services model decoder agent)
  unfolding iteration prepare
  iteration-IsLimited agent s h =
      Keeps-after (IsLimited settings) (ask settings services)
        (λ m. handle_calls settings services model decoder m (calls_of settings services m))
        (prepare settings services agent s) (unfold ask in answered-IsLimited _ _ h)
        (λ m. handle_calls-IsLimited m (calls_of settings services m))

  pub iterations-IsLimited :
      (agent : String) (n : ℕ)
      → Keeps (IsLimited settings) (iterations settings services model decoder agent n)
  unfolding iterations
  iterations-IsLimited agent zero s h = h
  iterations-IsLimited agent (suc n) s h =
      Keeps-bind (IsLimited settings) (iteration settings services model decoder agent)
        (go_on (iterations settings services model decoder agent n)) (iteration-IsLimited agent)
        (λ o. go_on-Keeps (IsLimited settings) _ o (iterations-IsLimited agent n)) s h

  module _ (asks : W → ℕ) (quiet : All (IsQuiet asks) services.tools)
      (once : (messages : List Message) (w : W)
        → asks (services.llm messages w).1 ≡ asks w + 1) where
    -- the model was asked at most so many times
    abbrev pub AskedAtMost : ℕ → LoopState W → Type 0
    AskedAtMost n s = asks s.world ≤ n

    answered-AskedAtMost :
        (n : ℕ) (r : Result Raised LlmOutput) → Keeps (AskedAtMost n) (answered settings services r)
    unfolding answered appended
    answered-AskedAtMost n (ok (ai_output m)) s h = h
    answered-AskedAtMost n (ok (other_output t)) s h = h
    answered-AskedAtMost n (err e) s h = h

    ask-AskedAtMost :
        (n : ℕ) (s : LoopState W)
        → AskedAtMost n s
        → AskedAtMost (suc n) (ask settings services s).1
    unfolding ask
    ask-AskedAtMost n s h =
        answered-AskedAtMost (suc n) (services.llm s.conversation s.world).0
          (record s { world = (services.llm s.conversation s.world).1 })
          (omega (arith, h, once s.conversation s.world))

    handle_calls-AskedAtMost :
        (n : ℕ) (m : AiMessage) (r : Result Raised (List ToolCall))
        → Keeps (AskedAtMost n) (handle_calls settings services model decoder m r)
    unfolding handle_calls ◌>>◌
    handle_calls-AskedAtMost n m (err e) s h = h
    handle_calls-AskedAtMost n m (ok (c ∷ calls)) s h =
        Keeps-after (AskedAtMost n) (run_calls settings services (c ∷ calls)) (λ _. pure none) s
          (omega (arith, h, run_calls-HasAsked settings services asks quiet _ (c ∷ calls) s refl))
          (λ _ _ k. k)
    handle_calls-AskedAtMost n m (ok []) s h =
        answer_with-Keeps (AskedAtMost n) (final_response settings services model decoder m) s h

    iteration-AskedAtMost :
        (agent : String) (n : ℕ) (s : LoopState W)
        → AskedAtMost n s
        → AskedAtMost (suc n) (iteration settings services model decoder agent s).1
    unfolding iteration prepare
    iteration-AskedAtMost agent n s h =
        Keeps-after (AskedAtMost (suc n)) (ask settings services)
          (λ m. handle_calls settings services model decoder m (calls_of settings services m))
          (prepare settings services agent s)
          (ask-AskedAtMost n (prepare settings services agent s) h)
          (λ m. handle_calls-AskedAtMost (suc n) m (calls_of settings services m))

    -- an iteration may stop the loop, or one less is left
    resumed-AskedAtMost :
        (k n : ℕ) (next : Exec (LoopState W) LoopError (Option M))
        → ((s : LoopState W) → AskedAtMost (suc k) s → AskedAtMost (k + suc n) (next s).1)
        → (r : Result LoopError (Option M) × LoopState W) → AskedAtMost (suc k) r.1
        → AskedAtMost (k + suc n) (resume r.0 (go_on next) raise r.1).1
    unfolding go_on
    resumed-AskedAtMost k n next f (ok (some v), s) h = omega (arith, h)
    resumed-AskedAtMost k n next f (ok none, s) h = f s h
    resumed-AskedAtMost k n next f (err e, s) h = omega (arith, h)

    pub iterations-AskedAtMost :
        (agent : String) (n k : ℕ) (s : LoopState W)
        → AskedAtMost k s
        → AskedAtMost (k + n) (iterations settings services model decoder agent n s).1
    unfolding iterations ◌>>=◌
    iterations-AskedAtMost agent zero k s h = omega (arith, h)
    iterations-AskedAtMost agent (suc n) k s h =
        resumed-AskedAtMost k n (iterations settings services model decoder agent n)
          (λ s' h'. omega (arith, iterations-AskedAtMost agent n (suc k) s' h'))
          (iteration settings services model decoder agent s) (iteration-AskedAtMost agent k s h)
