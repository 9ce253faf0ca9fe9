-- ===== src/Prelude/Texts.antt =====
-- Texts: f-strings, decimal numbers, parts of texts, and sorting by name.
use Prim.Native.Nat.{ℕ, zero, suc, ◌+◌, ◌/◌, ◌%◌, Ordering}
use Prim.Native.Char.{Char, code}
use Prim.Native.String
use Prim.Native.String.{String, compare}
use mathlib.Core.Bool.{Bool, true, false}
use mathlib.Core.Option.{Option, none, some}
use mathlib.Core.List.{List, [], ◌∷◌}
use text.Mathlib.Text.{find?}
use package.viswall.Prelude.Tests.{if◌then◌else◌, ltb, ◌==◌}
use package.viswall.Prelude.Json.{ℤ, pos, negsuc}

-- The text of an f-string, from its parts.
abbrev pub concat : List String → String
concat [] = ""
concat (s ∷ parts) = String.◌++◌ s (concat parts)

-- `separator.join(parts)`
abbrev pub joined : (separator : String) → List String → String
joined separator [] = ""
joined separator (s ∷ []) = s
joined separator (s ∷ t ∷ parts) = concat (s ∷ separator ∷ joined separator (t ∷ parts) ∷ [])

abbrev pub digit : ℕ → String
digit n =
    if n == 0
    then "0"
    else if n == 1
    then "1"
    else if n == 2
    then "2"
    else if n == 3
    then "3"
    else if n == 4
    then "4"
    else if n == 5
    then "5"
    else if n == 6
    then "6"
    else if n == 7
    then "7"
    else if n == 8
    then "8"
    else "9"

abbrev pub digits : (fuel n : ℕ) → String
digits zero n = ""
digits (suc fuel) n =
    let front = digits fuel (n / 10) in
    if ltb n 10 then digit n else String.◌++◌ front (digit (n % 10))

-- `str(n)`; a number has at most as many digits as one more than its value.
abbrev pub decimal : ℕ → String
decimal n = digits (n + 1) n

-- `f"{value}"` of an optional number
abbrev pub decimal_or_none : Option ℕ → String
decimal_or_none none = "None"
decimal_or_none (some n) = decimal n

-- `part in whole`, for texts
abbrev pub contains : (part whole : String) → Bool
contains part whole = elim (find? whole part) [ none ↦ false | some n ↦ true ]

-- `str(n)` of an integer
abbrev pub decimal_int : ℤ → String
decimal_int (pos n) = decimal n
decimal_int (negsuc n) = concat ("-" ∷ decimal (n + 1) ∷ [])

abbrev pub text_le : String → String → Bool
text_le a b = elim (compare a b) [ Ordering.gt ↦ false | _ ↦ true ]

-- `value.split("/", 1)[0]`
abbrev pub before_slash : String → String
before_slash String.[] = ""
before_slash (String.◌∷◌ c s) = if code c == b'/' then "" else String.◌∷◌ c (before_slash s)

abbrev add_to_first : Char → List String → List String
add_to_first c [] = String.◌∷◌ c "" ∷ []
add_to_first c (s ∷ parts) = String.◌∷◌ c s ∷ parts

-- `text.split(separator)`
abbrev pub split : (separator : ℕ) → String → List String
split separator String.[] = "" ∷ []
split separator (String.◌∷◌ c s) =
    let parts = split separator s in
    if code c == separator then "" ∷ parts else add_to_first c parts
