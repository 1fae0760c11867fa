-- ===== src/ToolLoop/Calls/Told.antt =====
-- The calls of a message ask the model nothing, and an error of theirs carries the messages so far.
use multiagents.Prelude.{
  ◌∙◌, Option, none, some, String, str_eq, strip, All, ℕ, ◌≡◌, refl, inl, inr, Bool-cases, List, [],
  ◌∷◌,
}
use multiagents.Context.Policy.{compact_tool_result}
use multiagents.Exec.{
  Exec, pure, raise, resume, ◌>>=◌, Result, ok, err, ◌>>◌, Keeps, Keeps-bind, Leads, Leads-bind,
}
use multiagents.Context.Messages.{JsonDict, ToolCall, ToolMessage}
use multiagents.ToolLoop.Parse.{Raised}
use multiagents.ToolLoop.Loop.{
  Tool, ToolOutput, Settings, returns_errors, Services, LoopState, LoopError, execution_error,
  other_error,
}
use multiagents.ToolLoop.Calls.{
  find_tool, success_message, run_tool, invoke_tool, tool_result_to_content, Checked, appended,
  counted, after_tool, run_checked, run_call, run_calls,
}

-- The tool does not change the count.
abbrev pub QuietFunc :
    {W : Type 0} → (W → ℕ) → Option (String → JsonDict → Exec W Raised ToolOutput) → Type 0
QuietFunc asks none = Unit
QuietFunc {W} asks (some f) =
    (id : String) (args : JsonDict) (w : W) → asks (f id args w).1 ≡ asks w

abbrev pub IsQuiet : {W : Type 0} → (W → ℕ) → Tool W → Type 0
IsQuiet asks t = QuietFunc asks t.func

module _ {W : Type 0} where
  -- an error that is passed on as it is has the messages of the state
  abbrev pub IsTold : LoopError → LoopState W → Type 0
  IsTold (execution_error e) s = e.output_messages ≡ s.output_messages
  IsTold (other_error e) s = Unit

module _ {W : Type 0} (settings : Settings) (services : Services W) where
  module _ (asks : W → ℕ) (quiet : All (IsQuiet asks) services.tools) where
    -- the model has been asked so often
    abbrev pub HasAsked : ℕ → LoopState W → Type 0
    HasAsked n s = asks s.world ≡ n

    abbrev IsQuietIfAny : Option (Tool W) → Type 0
    IsQuietIfAny none = Unit
    IsQuietIfAny (some t) = IsQuiet asks t

    find_tool-IsQuiet :
        (name : String) (tools : List (Tool W))
        → All (IsQuiet asks) tools
        → IsQuietIfAny (find_tool name tools)
    unfolding find_tool
    find_tool-IsQuiet name [] h = tt
    find_tool-IsQuiet name (t ∷ tools) (q, rest) = elim (Bool-cases (str_eq (strip t.name) name)) [
      | inl same ↦ rw same q
      | inr other ↦ rw other (find_tool-IsQuiet name tools rest)
    ]

    success_message-asks :
        (c : Checked) (output : ToolOutput) (w : W)
        → asks (success_message settings services c output w).1 ≡ asks w
    unfolding success_message ◌>>=◌
    success_message-asks c output w = lifted (tool_result_to_content services.dumps output)
      where
        lifted :
            (r : Result Raised String)
            → asks
                (resume {B = ToolMessage} r
                  (λ content. pure (record {
                    content = compact_tool_result settings.context_policy c.name content;
                    tool_call_id = c.id;
                    name = some c.name;
                    status = "success";
                  }))
                  raise
                  w).1
              ≡ asks w
        lifted (ok content) = refl
        lifted (err e) = refl

    run_tool-asks :
        (c : Checked) (o : Option (Tool W)) (w : W)
        → IsQuietIfAny o
        → asks (run_tool settings services c o w).1 ≡ asks w
    unfolding ◌>>=◌
    run_tool-asks c none w h = refl
    run_tool-asks c (some t) w h = called t.func h
      where
        resumed :
            (r : Result Raised ToolOutput × W)
            → asks r.1 ≡ asks w
            → asks (resume r.0 (success_message settings services c) raise r.1).1 ≡ asks w
        resumed (ok output, w') e = success_message-asks c output w' ∙ e
        resumed (err x, w') e = e

        called :
            (o : Option (String → JsonDict → Exec W Raised ToolOutput))
            → QuietFunc asks o
            → asks (run_tool settings services c (some (record { name = t.name; func = o })) w).1
              ≡ asks w
        called none q = refl
        called (some f) q = resumed (f c.id c.args w) (q c.id c.args w)

    invoke_tool-asks : (c : Checked) (w : W) → asks (invoke_tool settings services c w).1 ≡ asks w
    unfolding invoke_tool
    invoke_tool-asks c w =
        run_tool-asks c (find_tool c.name services.tools) w
          (find_tool-IsQuiet c.name services.tools quiet)

    after_tool-HasAsked :
        (n : ℕ) (tc : ToolCall) (c : Checked) (r : Result Raised ToolMessage)
        → Keeps (HasAsked n) (after_tool settings services tc c r)
    unfolding after_tool counted appended
    after_tool-HasAsked n tc c (ok m) s h = h
    after_tool-HasAsked n tc c (err e) s h = elim (Bool-cases (returns_errors settings)) [
      | inl returned ↦ rw returned h
      | inr raised ↦ rw raised h
    ]

    run_checked-HasAsked :
        (n : ℕ) (tc : ToolCall) (r : Result Raised Checked)
        → Keeps (HasAsked n) (run_checked settings services tc r)
    unfolding run_checked
    run_checked-HasAsked n tc (err e) s h = h
    run_checked-HasAsked n tc (ok c) s h =
        after_tool-HasAsked n tc c _ _ (invoke_tool-asks c s.world ∙ h)

    pub run_calls-HasAsked :
        (n : ℕ) (calls : List ToolCall) → Keeps (HasAsked n) (run_calls settings services calls)
    unfolding run_calls ◌>>◌
    run_calls-HasAsked n [] s h = h
    run_calls-HasAsked n (tc ∷ calls) s h =
        Keeps-bind (HasAsked n) (run_call settings services tc)
          (λ _. run_calls settings services calls)
          (unfold run_call in λ s' h'. run_checked-HasAsked n tc _ s' h')
          (λ _. run_calls-HasAsked n calls) s h

  after_tool-IsTold :
      (tc : ToolCall) (c : Checked) (r : Result Raised ToolMessage) (s : LoopState W)
      → Leads (λ _ _. Unit {0}) IsTold (after_tool settings services tc c r s)
  unfolding after_tool
  after_tool-IsTold tc c (ok m) s = tt
  after_tool-IsTold tc c (err e) s = elim (Bool-cases (returns_errors settings)) [
    | inl returned ↦ rw returned tt
    | inr raised ↦ rw raised refl
  ]

  run_checked-IsTold :
      (tc : ToolCall) (r : Result Raised Checked) (s : LoopState W)
      → Leads (λ _ _. Unit {0}) IsTold (run_checked settings services tc r s)
  unfolding run_checked
  run_checked-IsTold tc (err e) s = tt
  run_checked-IsTold tc (ok c) s = after_tool-IsTold tc c _ _

  pub run_calls-IsTold :
      (calls : List ToolCall) (s : LoopState W)
      → Leads (λ _ _. Unit {0}) IsTold (run_calls settings services calls s)
  unfolding run_calls ◌>>◌
  run_calls-IsTold [] s = tt
  run_calls-IsTold (tc ∷ calls) s =
      Leads-bind _ IsTold (run_call settings services tc) (λ _. run_calls settings services calls) s
        (λ _ _. Unit {0}) (unfold run_call in run_checked-IsTold tc _ s)
        (λ _ s' _. run_calls-IsTold calls s')
