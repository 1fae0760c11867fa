-- ===== src/ToolLoop/Invoke/Ends.antt =====
-- The iterations end with a response that the last message gives, or with an error that has the messages so far.
use multiagents.Prelude.{
  ℕ, zero, suc, ◌≡◌, refl, ◌++◌, inl, inr, Bool-cases, Option, none, some, List, [], ◌∷◌, String,
  is_empty, strip,
}
use multiagents.Exec.{Result, ok, err, Exec, pure, ◌>>◌, Leads, Leads-bind}
use multiagents.Context.Messages.{ToolCall, AiMessage, Message, ai}
use multiagents.ToolLoop.Parse.{Raised, Decoder, ResponseModel}
use multiagents.ToolLoop.Parse.Validated.{IsReadFrom, Reads, parse_structured_response-Reads}
use multiagents.ToolLoop.Loop.{
  Settings, LlmOutput, ai_output, other_output, Services, LoopState, LoopError,
  assistant_text_content,
}
use multiagents.ToolLoop.Calls.{appended, run_calls}
use multiagents.ToolLoop.Calls.Told.{IsTold, run_calls-IsTold}
use multiagents.ToolLoop.Invoke.{
  answer_with, go_on, prepare, answered, ask, calls_of, final_response, handle_calls, iteration,
  iterations,
}

module _ {W M : Type 0} (settings : Settings) (services : Services W) (model : ResponseModel M)
    (decoder : Decoder) where
  -- The last message of the run is the model's.
  abbrev pub EndsIn : AiMessage → LoopState W → Type 0
  EndsIn m s = (before : List Message) × (s.output_messages ≡ before ++ ai m ∷ [])

  -- The response was read from the text of the last message.
  abbrev pub IsAnswer : M → LoopState W → Type 0
  IsAnswer v s =
      (m : AiMessage) × EndsIn m s
      × IsReadFrom model decoder (strip (assistant_text_content services.show_json m)) v

  abbrev pub Answers : Option M → LoopState W → Type 0
  Answers none s = Unit
  Answers (some v) s = IsAnswer v s

  final_response-Reads :
      (m : AiMessage)
      → Reads model decoder
          (IsReadFrom model decoder (strip (assistant_text_content services.show_json m)))
          (final_response settings services model decoder m)
  unfolding final_response
  final_response-Reads m =
      elim (Bool-cases (is_empty (strip (assistant_text_content services.show_json m)))) [
        | inl empty ↦ rw empty tt
        | inr full ↦ rw full (
            parse_structured_response-Reads model decoder
              (strip (assistant_text_content services.show_json m)))
      ]

  answer_with-Leads :
      (m : AiMessage) (r : Result Raised M) (s : LoopState W)
      → EndsIn m s
      → Reads model decoder
          (IsReadFrom model decoder (strip (assistant_text_content services.show_json m)))
          r
      → Leads Answers IsTold (answer_with r s)
  unfolding answer_with
  answer_with-Leads m (ok v) s ends h = (m, ends, h)
  answer_with-Leads m (err e) s ends h = tt

  handle_calls-Leads :
      (m : AiMessage) (r : Result Raised (List ToolCall)) (s : LoopState W)
      → EndsIn m s
      → Leads Answers IsTold (handle_calls settings services model decoder m r s)
  unfolding handle_calls ◌>>◌
  handle_calls-Leads m (err e) s ends = tt
  handle_calls-Leads m (ok (c ∷ calls)) s ends =
      Leads-bind Answers IsTold (run_calls settings services (c ∷ calls)) (λ _. pure none) s
        (λ _ _. Unit {0}) (run_calls-IsTold settings services (c ∷ calls) s) (λ _ _ _. tt)
  handle_calls-Leads m (ok []) s ends = answer_with-Leads m _ s ends (final_response-Reads m)

  answered-Leads :
      (r : Result Raised LlmOutput) (s : LoopState W)
      → Leads EndsIn IsTold (answered settings services r s)
  unfolding answered appended
  answered-Leads (ok (ai_output m)) s = (s.output_messages, refl)
  answered-Leads (ok (other_output t)) s = tt
  answered-Leads (err e) s = tt

  iteration-Leads :
      (agent : String) (s : LoopState W)
      → Leads Answers IsTold (iteration settings services model decoder agent s)
  unfolding iteration
  iteration-Leads agent s =
      Leads-bind Answers IsTold (ask settings services)
        (λ m. handle_calls settings services model decoder m (calls_of settings services m))
        (prepare settings services agent s) EndsIn (unfold ask in answered-Leads _ _)
        (λ m s' ends. handle_calls-Leads m (calls_of settings services m) s' ends)

  go_on-Leads :
      (next : Exec (LoopState W) LoopError (Option M)) (o : Option M) (s : LoopState W)
      → Answers o s
      → Leads Answers IsTold (next s)
      → Leads Answers IsTold (go_on next o s)
  unfolding go_on
  go_on-Leads next (some v) s h k = h
  go_on-Leads next none s h k = k

  pub iterations-Leads :
      (agent : String) (n : ℕ) (s : LoopState W)
      → Leads Answers IsTold (iterations settings services model decoder agent n s)
  unfolding iterations
  iterations-Leads agent zero s = tt
  iterations-Leads agent (suc n) s =
      Leads-bind Answers IsTold (iteration settings services model decoder agent)
        (go_on (iterations settings services model decoder agent n)) s Answers
        (iteration-Leads agent s) (λ o s' h. go_on-Leads _ o s' h (iterations-Leads agent n s'))
