-- ===== src/ToolLoop/Calls/Limits.antt =====
-- The limits on successful calls, by tool and by signature, and that a loop over calls keeps them.
use multiagents.Prelude.{
  ℕ, ◌+◌, ◌≤◌, ◌≡◌, refl, inl, inr, Bool, true, false, ◌&&◌, Bool-cases, Option-cases, Option, none,
  some, List, [], ◌∷◌, any, count, count-append, length, String, str_eq, is_empty, strip, lookup,
  or_else, arith,
}
use multiagents.Exec.{Result, ok, err, lift, Ensures, Ensures-bind, Ensures-any}
use multiagents.Context.Messages.{
  ToolCall, call_not_dict, call, ToolMessage, Message, system, human, ai, tool,
}
use multiagents.ToolLoop.Parse.{Raised}
use multiagents.ToolLoop.Loop.{Settings, max_calls_for_tool, ToolOutput, Tool, Services, LoopState}
use multiagents.ToolLoop.Calls.{
  Checked, same_signature, over_limit, next_count, is_seen, appended, tool_result_to_content,
  find_tool, success_message, run_tool, invoke_tool, admit, check_call,
}

abbrev pub named : String → Option String → Bool
named name none = false
named name (some n) = str_eq n name

-- a message that gives the result of a tool, and of the tool of that name
abbrev pub is_success : Message → Bool
is_success (tool m) = str_eq m.status "success"
is_success (system s) = false
is_success (human s) = false
is_success (ai m) = false

abbrev pub is_success_of : String → Message → Bool
is_success_of name (tool m) = str_eq m.status "success" && named name m.name
is_success_of name (system s) = false
is_success_of name (human s) = false
is_success_of name (ai m) = false

abbrev pub IsWithin : ℕ → Option ℕ → Type 0
IsWithin n none = Unit
IsWithin n (some limit) = n ≤ limit

over_limit-IsWithin : (n : ℕ) (limit : Option ℕ) → over_limit n limit ≡ false → IsWithin n limit
over_limit-IsWithin n none h = tt
over_limit-IsWithin n (some limit) h = ground (arith, h)

-- No signature stands twice in the list.
abbrev pub IsDistinct : List (String × String) → Type 0
IsDistinct [] = Unit
IsDistinct (x ∷ xs) = (any (same_signature x) xs ≡ false) × IsDistinct xs

module _ {W : Type 0} (settings : Settings) where
  abbrev pub tally : String → LoopState W → ℕ
  tally name s = or_else 0 (lookup name s.tool_call_counts)

  -- The counts are those of the messages, none is over its limit, and where duplicates are forbidden
  -- each result has a signature of its own.
  abbrev pub IsLimited : LoopState W → Type 0
  IsLimited s =
      ((name : String) → tally name s ≡ count (is_success_of name) s.output_messages)
      × ((name : String) → IsWithin (tally name s) (max_calls_for_tool settings name))
      × (settings.forbid_duplicate_tool_calls ≡ true
          → IsDistinct s.seen_tool_calls
            × (length s.seen_tool_calls ≡ count is_success s.output_messages))

  pub appended-IsLimited :
      (m : Message) (s : LoopState W)
      → ((name : String) → is_success_of name m ≡ false)
      → is_success m ≡ false
      → IsLimited s
      → IsLimited (appended m s)
  unfolding appended
  appended-IsLimited m s no_name no_success (counts, limits, once) = (
    λ name. ground (
      arith,
      counts name,
      no_name name,
      count-append (is_success_of name) s.output_messages (m ∷ []),
    ),
    limits,
    λ forbid.
        let (distinct, total) = once forbid in
        (
          distinct,
          ground (arith, total, no_success, count-append is_success s.output_messages (m ∷ [])),
        ),
  )

  -- What a call that may be made has passed.
  abbrev pub IsAdmitted : Checked → LoopState W → Type 0
  IsAdmitted c s =
      IsWithin (tally c.name s + 1) (max_calls_for_tool settings c.name)
      × (settings.forbid_duplicate_tool_calls ≡ true → is_seen c.signature s ≡ false)

  abbrev pub Admits : LoopState W → Result Raised Checked → Type 0
  Admits s (ok c) = IsAdmitted c s
  Admits s (err e) = Unit

  module _ (services : Services W) where
    admit-Admits : (c : Checked) (s : LoopState W) → Admits s (admit settings services c s)
    unfolding admit next_count
    admit-Admits c s =
        elim (Bool-cases (settings.forbid_duplicate_tool_calls && is_seen c.signature s)) [
          | inl twice ↦ rw twice tt
          | inr fresh ↦
              rw fresh
                (elim (Bool-cases
                  (over_limit (tally c.name s + 1) (max_calls_for_tool settings c.name))) [
                    | inl over ↦ rw over tt
                    | inr within ↦
                        rw within
                          (over_limit-IsWithin _ _ within, λ forbid. ground (arith, forbid, fresh))
                  ])
        ]

    pub check_call-Admits :
        (tc : ToolCall) (s : LoopState W) → Admits s (check_call settings services tc s)
    unfolding check_call
    check_call-Admits call_not_dict s = tt
    check_call-Admits (call id raw none) s = elim (Bool-cases (is_empty (strip raw))) [
      | inl empty ↦ rw empty tt
      | inr named ↦ rw named tt
    ]
    check_call-Admits (call id raw (some d)) s = elim (Bool-cases (is_empty (strip raw))) [
      | inl empty ↦ rw empty tt
      | inr named ↦ rw named (admit-Admits _ s)
    ]

    -- what a tool's result carries
    abbrev pub IsResult : Checked → ToolMessage → Type 0
    IsResult c m = (m.name ≡ some c.name) × (m.status ≡ "success")

    success_message-IsResult :
        (c : Checked) (output : ToolOutput) (w : W)
        → Ensures (λ m _. IsResult c m) (success_message settings services c output w)
    unfolding success_message
    success_message-IsResult c output w =
        Ensures-bind _ (lift (tool_result_to_content services.dumps output)) _ w (λ _ _. Unit {0})
          (Ensures-any (tool_result_to_content services.dumps output, w))
          (λ content w' _. (refl, refl))

    run_tool-IsResult :
        (c : Checked) (t : Option (Tool W)) (w : W)
        → Ensures (λ m _. IsResult c m) (run_tool settings services c t w)
    run_tool-IsResult c none w = tt
    run_tool-IsResult c (some t) w = elim (Option-cases t.func) [
      | inl no_func ↦ rw no_func tt
      | inr func ↦ rw func.1 (
          Ensures-bind _ (func.0 c.id c.args) (success_message settings services c) w
            (λ _ _. Unit {0}) (Ensures-any (func.0 c.id c.args w))
            (λ output w' _. success_message-IsResult c output w'))
    ]

    pub invoke_tool-IsResult :
        (c : Checked) (w : W) → Ensures (λ m _. IsResult c m) (invoke_tool settings services c w)
    unfolding invoke_tool
    invoke_tool-IsResult c w = run_tool-IsResult c (find_tool c.name services.tools) w
