-- ===== src/Prelude/Chars.antt =====
-- The methods of JavaScript strings that the code calls, by their characters.
use Prim.Native.Char.{Char, code}
use Prim.Native.String.{String, [] as empty, ◌∷◌ as ◌◂◌}
use mathlib.Core.Path.{◌≡◌, refl}
use mathlib.Core.Bool.{Bool, true, false, ◌&&◌, ◌||◌}
use mathlib.Core.List.{List, [], ◌∷◌}
use mathlib.Core.Option.{Option, none, some}
use native.Mathlib.Omega.{arith}
use ai_distributed_job_platf.Prelude.Tests.{◌==◌, if◌then◌else◌}

abbrev pub is_empty : String → Bool
is_empty empty = true
is_empty (c ◂ text) = false

-- `a + b`.
abbrev pub append : String → String → String
append empty text = text
append (c ◂ front) text = c ◂ append front text

-- `text.startsWith(prefix)`, with the prefix first.
abbrev pub starts_with : String → String → Bool
starts_with empty text = true
starts_with (c ◂ prefix) empty = false
starts_with (c ◂ prefix) (d ◂ text) =
    let rest = starts_with prefix text in (code c == code d) && rest

-- One character more in front of the first part.
abbrev pub prepend : Char → List String → List String
prepend c [] = (c ◂ empty) ∷ []
prepend c (part ∷ parts) = (c ◂ part) ∷ parts

-- `text.split(separator)`.
abbrev pub split_on : Char → String → List String
split_on separator empty = "" ∷ []
split_on separator (c ◂ text) =
    let rest = split_on separator text in
    if code c == code separator then "" ∷ rest else prepend c rest

abbrev pub has_char : Char → String → Bool
has_char c empty = false
has_char c (d ◂ text) = let rest = has_char c text in (code d == code c) || rest

-- `parts[1]`.
abbrev pub second : List String → Option String
second [] = none
second (part ∷ []) = none
second (part ∷ next ∷ parts) = some next

-- A text without the separator is its only part.
pub split_on_whole :
    (separator : Char) (text : String)
    → has_char separator text ≡ false
    → split_on separator text ≡ text ∷ []
split_on_whole separator empty h = refl
split_on_whole separator (c ◂ text) h =
    let here : (code c == code separator) ≡ false = ground arith in
    rw (here, split_on_whole separator text (ground arith)) refl
