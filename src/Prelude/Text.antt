-- ===== src/Prelude/Text.antt =====
-- Python's `str` as the native `String`: equality, truth, `strip` and `lower`.
use Prim.Native.Nat.{ℕ, zero, suc, ◌-◌, ◌/◌, ◌%◌}
use Prim.Native.Char.{Char, code}
use Prim.Native.String.{String}
use mathlib.Core.Path.{◌≡◌, refl}
use Prim.Native.String.{◌++◌}
use mathlib.Core.List.{List, [], ◌∷◌}
use mathlib.Core.Option.{Option, none, some}
use mathlib.Core.Bool.{Bool, true, false, ◌&&◌, ◌||◌}
use text.Mathlib.Text.{◌==◌ as text_eq}
use text.Mathlib.TextEquality.{eq_iff}
use multiagents.Prelude.Tests.{ltb, leb, ◌==◌, if◌then◌else◌}

abbrev pub str_eq : String → String → Bool
str_eq s t = text_eq s t

pub str_eq_iff : (s t : String) → ((str_eq s t ≡ true) → s ≡ t) × ((s ≡ t) → str_eq s t ≡ true)
str_eq_iff s t = eq_iff s t

-- `not s`, for a text
abbrev pub is_empty : String → Bool
is_empty String.[] = true
is_empty (String.◌∷◌ c s) = false

-- the code points that `str.isspace` accepts
pub is_space : ℕ → Bool
is_space c =
    (leb 9 c && leb c 13)
    || (leb 28 c && leb c 32)
    || c == 133
    || c == 160
    || c == 5760
    || (leb 8192 c && leb c 8202)
    || c == 8232
    || c == 8233
    || c == 8239
    || c == 8287
    || c == 12288

unfoldable pub lstrip : String → String
unfolding is_space
lstrip String.[] = String.[]
lstrip (String.◌∷◌ c s) = if is_space (code c) then lstrip s else String.◌∷◌ c s

-- a character is kept if it is no space, or if something is kept behind it
keep_before : Char → String → String
unfolding is_space
keep_before c String.[] = if is_space (code c) then String.[] else String.◌∷◌ c String.[]
keep_before c (String.◌∷◌ d s) = String.◌∷◌ c (String.◌∷◌ d s)

unfoldable pub rstrip : String → String
unfolding keep_before
rstrip String.[] = String.[]
rstrip (String.◌∷◌ c s) = keep_before c (rstrip s)

-- `s.strip()`
unfoldable pub strip : String → String
unfolding lstrip rstrip
strip s = rstrip (lstrip s)

strip_both : strip "  pda \n" ≡ "pda"
unfolding strip
strip_both = refl

-- the code points of the capitals A–Z give their small letters
small_from : ℕ → String → Char → Char
small_from n String.[] d = d
small_from zero (String.◌∷◌ c s) d = c
small_from (suc n) (String.◌∷◌ c s) d = small_from n s d

-- `s.lower()` on ASCII; other characters are left as they are
unfoldable pub lower : String → String
unfolding small_from
lower String.[] = String.[]
lower (String.◌∷◌ c s) =
    String.◌∷◌
      (if leb 65 (code c) && leb (code c) 90
        then small_from (code c - 65) "abcdefghijklmnopqrstuvwxyz" c
        else c)
      (lower s)

lower_word : lower "Dead_Letter" ≡ "dead_letter"
unfolding lower
lower_word = refl

-- `s or None`
abbrev pub text_or_none : String → Option String
text_or_none String.[] = none
text_or_none (String.◌∷◌ c s) = some (String.◌∷◌ c s)

-- an f-string, as the list of its parts
unfoldable pub texts : List String → String
texts [] = ""
texts (s ∷ rest) = s ++ texts rest

-- `sep.join(parts)`
unfoldable pub join : String → List String → String
join sep [] = ""
join sep (s ∷ []) = s
join sep (s ∷ t ∷ rest) = s ++ (sep ++ join sep (t ∷ rest))

-- `text.startswith(prefix)`
unfoldable pub starts_with : String → String → Bool
starts_with String.[] s = true
starts_with (String.◌∷◌ p prefix) String.[] = false
starts_with (String.◌∷◌ p prefix) (String.◌∷◌ c s) = code p == code c && starts_with prefix s

-- `part in text`
unfoldable pub contains : String → String → Bool
unfolding starts_with
contains part String.[] = starts_with part String.[]
contains part (String.◌∷◌ c s) = starts_with part (String.◌∷◌ c s) || contains part s

char_at : ℕ → String → String
char_at n String.[] = ""
char_at zero (String.◌∷◌ c s) = String.◌∷◌ c ""
char_at (suc n) (String.◌∷◌ c s) = char_at n s

-- one round for each digit; a number has no more digits than it counts, plus one
digits : ℕ → ℕ → String
unfolding char_at
digits zero n = ""
digits (suc rounds) n =
    let higher = digits rounds (n / 10) in
    if ltb n 10 then char_at n "0123456789" else higher ++ char_at (n % 10) "0123456789"

-- `str(n)` of a natural number
unfoldable pub decimal : ℕ → String
unfolding digits
decimal n = digits (suc n) n

decimal_three : decimal 120 ≡ "120"
unfolding decimal
decimal_three = refl
