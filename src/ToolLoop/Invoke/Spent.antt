-- ===== src/ToolLoop/Invoke/Spent.antt =====
-- What a run of the loop has spent, and how it ends.
use multiagents.Prelude.{
  All, ◌+◌, lookup, ℕ, ◌≤◌, ◌≡◌, refl, true, Option, none, some, List, count, length, String, arith,
}
use multiagents.Exec.{Result, ok, err, Leads}
use multiagents.Context.Messages.{Message}
use multiagents.Context.Budget.{TokenBudget}
use multiagents.ToolLoop.Parse.{Decoder, ResponseModel}
use multiagents.ToolLoop.Loop.{
  Settings, max_calls_for_tool, Services, LoopState, ToolLoopExecutionError, LoopError,
  execution_error, other_error,
}
use multiagents.ToolLoop.Calls.Limits.{is_success, is_success_of, IsWithin, IsDistinct, IsLimited}
use multiagents.ToolLoop.Calls.Told.{IsQuiet, IsTold}
use multiagents.ToolLoop.Invoke.{iterations, finish, start, run}
use multiagents.ToolLoop.Invoke.Rounds.{iterations-IsLimited, iterations-AskedAtMost}
use multiagents.ToolLoop.Invoke.Ends.{IsAnswer, Answers, iterations-Leads}

module _ {W M : Type 0} (settings : Settings) (services : Services W) (model : ResponseModel M)
    (decoder : Decoder) where
  -- How the loop ends: with a response that the last message gives, or with an error that carries the
  -- messages so far.
  abbrev pub IsEnd : Result ToolLoopExecutionError M × LoopState W → Type 0
  IsEnd (ok v, s) = IsAnswer settings services model decoder v s
  IsEnd (err e, s) = e.output_messages ≡ s.output_messages

  finish-IsEnd :
      (r : Result LoopError (Option M)) (s : LoopState W)
      → Leads (Answers settings services model decoder) IsTold (r, s)
      → IsEnd (finish settings services model decoder r s)
  unfolding finish
  finish-IsEnd (ok (some v)) s h = h
  finish-IsEnd (ok none) s h = refl
  finish-IsEnd (err (execution_error e)) s h = h
  finish-IsEnd (err (other_error e)) s h = refl

  finish_state :
      (r : Result LoopError (Option M)) (s : LoopState W)
      → (finish settings services model decoder r s).1 ≡ s
  unfolding finish
  finish_state (ok (some v)) s = refl
  finish_state (ok none) s = refl
  finish_state (err e) s = refl

  -- What holds of the messages and the calls that a run leaves.
  abbrev pub IsSpent : LoopState W → Type 0
  IsSpent s =
      ((name : String)
        → IsWithin (count (is_success_of name) s.output_messages)
            (max_calls_for_tool settings name))
      × (settings.forbid_duplicate_tool_calls ≡ true
          → IsDistinct s.seen_tool_calls
            × (length s.seen_tool_calls ≡ count is_success s.output_messages))

  limited-IsSpent : (s : LoopState W) → IsLimited settings s → IsSpent s
  limited-IsSpent s (counts, limits, once) = (λ name. rw (counts name) at (limits name), once)

  IsWithin-zero : (limit : Option ℕ) → IsWithin 0 limit
  IsWithin-zero none = tt
  IsWithin-zero (some limit) = omega arith

  start-IsLimited :
      (messages : List Message) (budget : Option TokenBudget) (w : W)
      → IsLimited settings (start settings services model decoder messages budget w)
  unfolding start lookup
  start-IsLimited messages budget w =
      (λ name. refl, λ name. IsWithin-zero (max_calls_for_tool settings name), λ forbid. (tt, refl))

  -- From its start on any messages the loop ends. Then each tool has given no more results than its
  -- limit, and if duplicates are forbidden each result has a signature of its own. However requests
  -- to the model are counted, one for each and none by a tool, at most `max_iterations` were made. A
  -- response was read from the text of the last message, which is the model's, and an error carries
  -- every message that came so far.
  pub run-IsSpent :
      (asks : W → ℕ)
      → All (IsQuiet asks) services.tools
      → ((messages : List Message) (w : W) → asks (services.llm messages w).1 ≡ asks w + 1)
      → (agent : String) (messages : List Message) (budget : Option TokenBudget) (w : W)
      → IsSpent
          (run settings services model decoder agent
            (start settings services model decoder messages budget w)).1
        × (asks
              (run settings services model decoder agent
                (start settings services model decoder messages budget w)).1.world
            ≤ asks w + settings.max_iterations)
        × IsEnd (
            run settings services model decoder agent
              (start settings services model decoder messages budget w))
  unfolding run
  run-IsSpent asks quiet once agent messages budget w =
      let s : LoopState W = start settings services model decoder messages budget w in
      let r = iterations settings services model decoder agent settings.max_iterations s in
      (
        rw (finish_state r.0 r.1) (
            limited-IsSpent r.1 (
              iterations-IsLimited settings services model decoder agent settings.max_iterations s
                (start-IsLimited messages budget w))),
        rw (finish_state r.0 r.1) (
            iterations-AskedAtMost settings services model decoder asks quiet once agent
              settings.max_iterations (asks w) s (unfold start in omega arith)),
        finish-IsEnd r.0 r.1
            (iterations-Leads settings services model decoder agent settings.max_iterations s),
      )
