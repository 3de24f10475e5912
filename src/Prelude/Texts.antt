-- ===== src/Prelude/Texts.antt =====
-- Template strings: the decimal digits that `${n}` writes for a number.
use Prim.Native.Nat.{ℕ, zero, suc, ◌/◌, ◌%◌}
use Prim.Native.String.{String, [] as empty, ◌∷◌ as ◌◂◌, ◌++◌}
use Prim.Native.String.append
use Prim.Native.Char.{Char}
use text.Mathlib.Text.{◌==◌ as str_eq}
use text.Mathlib.TextEquality.{eq_iff as str_eq_iff}
use mathlib.Core.Bool.{Bool, true, false}
use mathlib.Core.Logic.{inl, inr}
use mathlib.Core.Path.{◌≡◌, refl, ap, ◌∙◌}
use mathlib.Core.List.{List, [], ◌∷◌}
use ai_distributed_job_platf.Prelude.Tests.{ltb, ◌==◌, if◌then◌else◌, Bool-cases}

digit : ℕ → String
digit d =
    if d == 0
    then "0"
    else if d == 1
    then "1"
    else if d == 2
    then "2"
    else if d == 3
    then "3"
    else if d == 4
    then "4"
    else if d == 5
    then "5"
    else if d == 6
    then "6"
    else if d == 7
    then "7"
    else if d == 8
    then "8"
    else "9"

-- A number has no more digits than its value, so the fuel `suc n` is never used up.
digits_from : ℕ → ℕ → String
digits_from zero n = ""
digits_from (suc fuel) n =
    let front = digits_from fuel (n / 10) in if ltb n 10 then digit n else front ++ digit (n % 10)

unfoldable pub show : ℕ → String
unfolding digits_from digit
show n = digits_from (suc n) n

not_empty : (c : Char) (text : String) → str_eq (c ◂ text) "" ≡ false
not_empty c text = elim (Bool-cases (str_eq (c ◂ text) "")) [
  | inl e ↦ cc ((str_eq_iff (c ◂ text) "").0 e)
  | inr e ↦ e
]

if_full :
    (b : Bool) (x y : String)
    → str_eq x "" ≡ false
    → str_eq y "" ≡ false
    → str_eq (if b then x else y) "" ≡ false
if_full true x y h k = h
if_full false x y h k = k

digit_full : (d : ℕ) → str_eq (digit d) "" ≡ false
unfolding digit
digit_full d = if_full (d == 0) _ _ refl (
    if_full (d == 1) _ _ refl (
      if_full (d == 2) _ _ refl (
        if_full (d == 3) _ _ refl (
          if_full (d == 4) _ _ refl (
            if_full (d == 5) _ _ refl (
              if_full (d == 6) _ _ refl
                (if_full (d == 7) _ _ refl (if_full (d == 8) _ _ refl refl))))))))

append_full : (a b : String) → str_eq b "" ≡ false → str_eq (a ++ b) "" ≡ false
append_full empty b h = ap (λ t. str_eq t "") (append.nil b) ∙ h
append_full (c ◂ a) b h = ap (λ t. str_eq t "") (append.cons c a b) ∙ not_empty c (a ++ b)

-- The digits of a number are no empty text.
pub show_full : (n : ℕ) → str_eq (show n) "" ≡ false
unfolding show digits_from
show_full n = elim (Bool-cases (ltb n 10)) [
  | inl one_digit ↦ rw one_digit (digit_full n)
  | inr more ↦ rw more (append_full (digits_from n (n / 10)) (digit (n % 10)) (digit_full (n % 10)))
]

-- The text `a${…}b`, by its parts.
unfoldable pub template : List String → String
template [] = ""
template (s ∷ parts) = s ++ template parts

-- `Array.prototype.join`.
unfoldable pub join : String → List String → String
join sep [] = ""
join sep (s ∷ []) = s
join sep (s ∷ t ∷ rest) = s ++ sep ++ join sep (t ∷ rest)

show_2000 : show 2000 ≡ "2000"
unfolding show
show_2000 = refl

template_attempt : template ("Attempt " ∷ show 3 ∷ "/" ∷ show 10 ∷ []) ≡ "Attempt 3/10"
unfolding template show
template_attempt = refl
