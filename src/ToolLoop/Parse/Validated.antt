-- ===== src/ToolLoop/Parse/Validated.antt =====
-- Where a structured response comes from: the text that it was read from.
use Prim.Native.Char.{Char, code}
use multiagents.Prelude.{
  ◌||◌, ◌≡◌, refl, ◌⊎◌, inl, inr, Bool, true, false, if◌then◌else◌, Bool-cases, Option, none, some,
  List, [], ◌∷◌, All, All-append, any, String, str_eq, is_empty, strip, ◌==◌,
}
use mathlib.Core.Path.{subst}
use multiagents.Exec.{Result, ok, err}
use multiagents.Context.Messages.{Json}
use multiagents.ToolLoop.Thinking.{strip_thinking, strip_code_fence}
use multiagents.ToolLoop.Parse.{
  Raised, Decoder, ResponseModel, add_candidate, candidates, then_validate, or_last, scan_brackets,
  try_loaded, try_candidate, or_next, try_candidates, or_raise, parse_structured_response,
}
use multiagents.ToolLoop.Parse.Payload.{IsMadeOf, Makes, validate_loaded-Makes}

-- The text ends the other, at a bracket that opens a payload.
pub data OpensIn : String → String → Type 0 where
  here :
      {c : Char} {s : String}
      → (code c == b'[' || code c == b'{') ≡ true
      → OpensIn (String.◌∷◌ c s) (String.◌∷◌ c s)
  further : {c : Char} {t s : String} → OpensIn t s → OpensIn t (String.◌∷◌ c s)

-- The text is the given one without the blanks around it, or that without its thinking, or one of
-- the two without its fence.
abbrev pub IsCandidate : String → String → Type 0
IsCandidate text c =
    (c ≡ strip text)
    ⊎ (c ≡ strip_thinking (strip text))
    ⊎ (c ≡ strip_code_fence (strip text))
    ⊎ (c ≡ strip_code_fence (strip_thinking (strip text)))

add_candidate-All :
    (P : String → Type 0) (c : String) (cs : List String)
    → P c
    → All P cs
    → All P (add_candidate c cs)
unfolding add_candidate
add_candidate-All P c cs p all = elim (Bool-cases (is_empty c || any (λ d. str_eq c d) cs)) [
  | inl known ↦ rw known all
  | inr new ↦ rw new (All-append P cs (c ∷ []) all (p, tt))
]

branches-All :
    (P : String → Type 0) (b : Bool) (xs ys : List String)
    → All P xs
    → All P ys
    → All P (if b then xs else ys)
branches-All P true xs ys h k = h
branches-All P false xs ys h k = k

candidates-IsCandidate : (text : String) → All (IsCandidate text) (candidates text)
unfolding candidates
candidates-IsCandidate text =
    let plain =
      add_candidate-All (IsCandidate text) (strip_code_fence (strip text)) _ (inr (inr (inl refl)))
        (add_candidate-All (IsCandidate text) (strip_thinking (strip text)) (strip text ∷ [])
          (inr (inl refl)) (inl refl, tt)) in
    branches-All (IsCandidate text) (is_empty (strip_thinking (strip text))) _ _ plain (
      add_candidate-All (IsCandidate text) (strip_code_fence (strip_thinking (strip text))) _
        (inr (inr (inr refl))) plain)

module _ {M : Type 0} (model : ResponseModel M) (decoder : Decoder) where
  -- The decoder found the payload in the text: it is all of it, or begins at a bracket.
  abbrev pub IsDecoded : String → Json → Type 0
  IsDecoded c payload =
      (decoder.loads c ≡ ok payload)
      ⊎ ((s : String) × OpensIn s c × (decoder.raw_decode s ≡ ok payload))

  -- The result was made of the text, or of a payload that was found in it.
  abbrev pub IsMadeFrom : String → M → Type 0
  IsMadeFrom c m =
      (model.model_validate_json c ≡ ok m)
      ⊎ ((payload : Json) × IsDecoded c payload × IsMadeOf model payload m)

  -- The result was read from the text.
  abbrev pub IsReadFrom : String → M → Type 0
  IsReadFrom text m = (c : String) × IsCandidate text c × IsMadeFrom c m

  abbrev pub Reads : {E : Type 0} → (M → Type 0) → Result E M → Type 0
  Reads P (ok m) = P m
  Reads P (err e) = Unit

  module _ (P : M → Type 0) where
    or_last-Reads :
        (r : Result Raised M) (next : Option Raised → Result (Option Raised) M)
        → Reads P r
        → ((last : Option Raised) → Reads P (next last))
        → Reads P (or_last model decoder r next)
    unfolding or_last
    or_last-Reads (ok m) next h k = h
    or_last-Reads (err e) next h k = k (some e)

    or_next-Reads :
        (r : Result (Option Raised) M) (next : Option Raised → Result (Option Raised) M)
        → Reads P r
        → ((last : Option Raised) → Reads P (next last))
        → Reads P (or_next model decoder r next)
    unfolding or_next
    or_next-Reads (ok m) next h k = h
    or_next-Reads (err last) next h k = k last

    or_raise-Reads : (r : Result (Option Raised) M) → Reads P r → Reads P (or_raise model decoder r)
    unfolding or_raise
    or_raise-Reads (ok m) h = h
    or_raise-Reads (err (some e)) h = tt
    or_raise-Reads (err none) h = tt

  made_from :
      (c : String) (payload : Json) (r : Result Raised M)
      → IsDecoded c payload
      → Makes model payload r
      → Reads (IsMadeFrom c) r
  made_from c payload (ok m) found made = inr (payload, found, made)
  made_from c payload (err e) found made = tt

  then_validate-Reads :
      (c s : String) (r : Result Raised Json)
      → OpensIn s c
      → decoder.raw_decode s ≡ r
      → Reads (IsMadeFrom c) (then_validate model decoder r)
  unfolding then_validate
  then_validate-Reads c s (ok payload) opens e =
      made_from c payload _ (inr (s, opens, e)) (validate_loaded-Makes model payload)
  then_validate-Reads c s (err x) opens e = tt

  -- `s` ends the candidate
  scan_brackets-Reads :
      (c s : String) (last : Option Raised)
      → ((t : String) → OpensIn t s → OpensIn t c)
      → Reads (IsMadeFrom c) (scan_brackets model decoder s last)
  unfolding scan_brackets
  scan_brackets-Reads c String.[] last ends = tt
  scan_brackets-Reads c (String.◌∷◌ x s) last ends =
      elim (Bool-cases (code x == b'[' || code x == b'{')) [
        | inl opens ↦ rw opens (
            or_last-Reads (IsMadeFrom c) _ (scan_brackets model decoder s)
              (then_validate-Reads c (String.◌∷◌ x s) _ (ends (String.◌∷◌ x s) (here opens)) refl)
              (λ next. scan_brackets-Reads c s next (λ t o. ends t (further o))))
        | inr plain ↦ rw plain (scan_brackets-Reads c s last (λ t o. ends t (further o)))
      ]

  try_loaded-Reads :
      (c : String) (r : Result Raised Json)
      → decoder.loads c ≡ r
      → Reads (IsMadeFrom c) (try_loaded model decoder c r)
  unfolding try_loaded
  try_loaded-Reads c (ok payload) e =
      or_last-Reads (IsMadeFrom c) _ err
        (made_from c payload _ (inl e) (validate_loaded-Makes model payload)) (λ _. tt)
  try_loaded-Reads c (err x) e = scan_brackets-Reads c c (some x) (λ t o. o)

  taken :
      (c : String) (r : Result Raised M) → model.model_validate_json c ≡ r → Reads (IsMadeFrom c) r
  taken c (ok m) e = inl e
  taken c (err x) e = tt

  try_candidate-Reads : (c : String) → Reads (IsMadeFrom c) (try_candidate model decoder c)
  unfolding try_candidate
  try_candidate-Reads c =
      or_last-Reads (IsMadeFrom c) _ _ (taken c _ refl)
        (λ _. try_loaded-Reads c (decoder.loads c) refl)

  Reads-imp :
      {E : Type 0} {P Q : M → Type 0} (r : Result E M)
      → ((m : M) → P m → Q m)
      → Reads P r
      → Reads Q r
  Reads-imp (ok m) f h = f m h
  Reads-imp (err e) f h = tt

  try_candidates-Reads :
      (text : String) (cs : List String) (last : Option Raised)
      → All (IsCandidate text) cs
      → Reads (IsReadFrom text) (try_candidates model decoder cs last)
  unfolding try_candidates
  try_candidates-Reads text [] last h = tt
  try_candidates-Reads text (c ∷ cs) last (candidate, rest) = elim (Bool-cases (is_empty c)) [
    | inl empty ↦ rw empty (try_candidates-Reads text cs last rest)
    | inr full ↦ rw full (
        or_next-Reads (IsReadFrom text) _ (try_candidates model decoder cs)
          (Reads-imp (try_candidate model decoder c) (λ m made. (c, candidate, made))
            (try_candidate-Reads c))
          (λ next. try_candidates-Reads text cs next rest))
  ]

  pub parse_structured_response-Reads :
      (text : String) → Reads (IsReadFrom text) (parse_structured_response model decoder text)
  unfolding parse_structured_response
  parse_structured_response-Reads text =
      or_raise-Reads (IsReadFrom text) _
        (try_candidates-Reads text (candidates text) none (candidates-IsCandidate text))

  -- A response that is read from the model's text was made by the response model of the text itself,
  -- without blanks, thinking or fence around it, or of a payload that is all of that or begins at
  -- one of its opening brackets, or of a value that the payload wraps in a list or under a key.
  pub parse_structured_response-IsReadFrom :
      (text : String) (m : M)
      → parse_structured_response model decoder text ≡ ok m
      → IsReadFrom text m
  parse_structured_response-IsReadFrom text m e =
      subst (Reads (IsReadFrom text)) e (parse_structured_response-Reads text)
