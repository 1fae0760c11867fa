-- ===== src/ToolLoop/Calls/Kept.antt =====
-- The calls of a message keep the limits.
use mathlib.Core.Path.{subst}
use multiagents.Prelude.{
  ◌+◌, ◌≡◌, refl, sym, inl, inr, false, Bool-cases, List, [], ◌∷◌, ◌++◌, count, count-append,
  length, String, str_eq, str_eq_iff, lookup-assign, lookup-assign_other, if◌then◌else◌, arith,
}
use multiagents.Exec.{Result, ok, err, ◌>>◌, Ensures, Keeps, Keeps-bind}
use multiagents.Context.Messages.{ToolCall, ToolMessage, tool}
use multiagents.ToolLoop.Parse.{Raised}
use multiagents.ToolLoop.Loop.{Settings, returns_errors, max_calls_for_tool, Services, LoopState}
use multiagents.ToolLoop.Calls.{
  Checked, next_count, is_seen, appended, counted, build_tool_error_message, invoke_tool,
  after_tool, run_checked, run_call, run_calls,
}
use multiagents.ToolLoop.Calls.Limits.{
  is_success, is_success_of, tally, IsWithin, IsDistinct, IsLimited, IsAdmitted, Admits, IsResult,
  appended-IsLimited, check_call-Admits, invoke_tool-IsResult,
}

module _ {W : Type 0} (settings : Settings) (services : Services W) where
  success_of :
      (c : Checked) (m : ToolMessage) (name : String)
      → IsResult settings services c m
      → is_success_of name (tool m) ≡ str_eq c.name name
  success_of c m name (n, st) = rw (n, st) (ground (arith, str_eq_iff "success" "success"))

  counted-tally :
      (c : Checked) (m : ToolMessage) (s : LoopState W) (name : String)
      → tally settings name (counted c m s)
        ≡ (if str_eq c.name name then tally settings c.name s + 1 else tally settings name s)
  unfolding counted appended next_count
  counted-tally c m s name = elim (Bool-cases (str_eq c.name name)) [
    | inl same ↦
        rw
          (
            same,
            sym ((str_eq_iff c.name name).0 same),
            lookup-assign c.name (tally settings c.name s + 1) s.tool_call_counts,
          )
          refl
    | inr other ↦
        rw
          (
            other,
            lookup-assign_other c.name name (tally settings c.name s + 1) s.tool_call_counts other,
          )
          refl
  ]

  counted-counts :
      (c : Checked) (m : ToolMessage) (s : LoopState W) (name : String)
      → IsResult settings services c m
      → ((name : String) → tally settings name s ≡ count (is_success_of name) s.output_messages)
      → tally settings name (counted c m s)
        ≡ count (is_success_of name) (s.output_messages ++ tool m ∷ [])
  counted-counts c m s name result counts =
      rw
        (
          counted-tally c m s name,
          count-append (is_success_of name) s.output_messages (tool m ∷ []),
          success_of c m name result,
        )
        (elim (Bool-cases (str_eq c.name name)) [
          | inl same ↦ rw (same, (str_eq_iff c.name name).0 same) (omega (arith, counts name))
          | inr other ↦ rw other (omega (arith, counts name))
        ])

  counted-limits :
      (c : Checked) (m : ToolMessage) (s : LoopState W) (name : String)
      → IsWithin (tally settings c.name s + 1) (max_calls_for_tool settings c.name)
      → IsWithin (tally settings name s) (max_calls_for_tool settings name)
      → IsWithin (tally settings name (counted c m s)) (max_calls_for_tool settings name)
  counted-limits c m s name within before =
      rw (counted-tally c m s name) (elim (Bool-cases (str_eq c.name name)) [
        | inl same ↦ rw same (
            subst (λ n. IsWithin (tally settings c.name s + 1) (max_calls_for_tool settings n))
              ((str_eq_iff c.name name).0 same) within)
        | inr other ↦ rw other before
      ])

  counted-once :
      (c : Checked) (m : ToolMessage) (s : LoopState W)
      → IsResult settings services c m
      → is_seen c.signature s ≡ false
      → IsDistinct s.seen_tool_calls
        × (length s.seen_tool_calls ≡ count is_success s.output_messages)
      → IsDistinct (counted c m s).seen_tool_calls
        × (length (counted c m s).seen_tool_calls
            ≡ count is_success (s.output_messages ++ tool m ∷ []))
  unfolding counted appended
  counted-once c m s (n, st) fresh (distinct, total) = rw fresh (
    ((unfold is_seen in fresh), distinct),
    rw (count-append is_success s.output_messages (tool m ∷ []), st)
        (ground (arith, total, str_eq_iff "success" "success")),
  )

  counted-IsLimited :
      (c : Checked) (m : ToolMessage) (s : LoopState W)
      → IsResult settings services c m
      → IsAdmitted settings c s
      → IsLimited settings s
      → IsLimited settings (counted c m s)
  unfolding counted appended
  counted-IsLimited c m s result (within, fresh) (counts, limits, once) = (
    λ name. counted-counts c m s name result counts,
    λ name. counted-limits c m s name within (limits name),
    λ forbid. counted-once c m s result (fresh forbid) (once forbid),
  )

  after_tool-IsLimited :
      (tc : ToolCall) (c : Checked) (r : Result Raised ToolMessage) (s : LoopState W)
      → Ensures (λ m _. IsResult settings services c m) (r, s)
      → IsAdmitted settings c s
      → IsLimited settings s
      → IsLimited settings (after_tool settings services tc c r s).1
  unfolding after_tool
  after_tool-IsLimited tc c (ok m) s result admitted limited =
      counted-IsLimited c m s result admitted limited
  after_tool-IsLimited tc c (err e) s result admitted limited =
      elim (Bool-cases (returns_errors settings)) [
        | inl returned ↦ rw returned (
            appended-IsLimited settings _ s (unfold build_tool_error_message in λ name. refl)
              (unfold build_tool_error_message in refl) limited)
        | inr raised ↦ rw raised limited
      ]

  result_of :
      (c : Checked) (r : Result Raised ToolMessage × W) (s : LoopState W)
      → Ensures (λ m _. IsResult settings services c m) r
      → Ensures (λ m _. IsResult settings services c m) (r.0, s)
  result_of c (ok m, w) s h = h
  result_of c (err e, w) s h = tt

  run_checked-IsLimited :
      (tc : ToolCall) (r : Result Raised Checked) (s : LoopState W)
      → Admits settings s r
      → IsLimited settings s
      → IsLimited settings (run_checked settings services tc r s).1
  unfolding run_checked
  run_checked-IsLimited tc (err e) s h limited = limited
  run_checked-IsLimited tc (ok c) s h limited =
      after_tool-IsLimited tc c (invoke_tool settings services c s.world).0
        (record s { world = (invoke_tool settings services c s.world).1 })
        (result_of c (invoke_tool settings services c s.world) _
          (invoke_tool-IsResult settings services c s.world))
        h limited

  run_call-IsLimited : (tc : ToolCall) → Keeps (IsLimited settings) (run_call settings services tc)
  unfolding run_call
  run_call-IsLimited tc s limited =
      run_checked-IsLimited tc _ s (check_call-Admits settings services tc s) limited

  pub run_calls-IsLimited :
      (calls : List ToolCall) → Keeps (IsLimited settings) (run_calls settings services calls)
  unfolding run_calls ◌>>◌
  run_calls-IsLimited [] s limited = limited
  run_calls-IsLimited (tc ∷ calls) s limited =
      Keeps-bind (IsLimited settings) (run_call settings services tc)
        (λ _. run_calls settings services calls) (run_call-IsLimited tc)
        (λ _. run_calls-IsLimited calls) s limited
