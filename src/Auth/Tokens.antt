-- ===== src/Auth/Tokens.antt =====
-- Tokens for tests, in place of those of jsonwebtoken: they stand for no code of the repository.
use Prim.Native.String.{[] as empty, ◌∷◌ as ◌◂◌}
use Prim.Native.Char.{Char, code}
use text.Mathlib.TextEquality.{Char-path}
use ai_distributed_job_platf.Prelude.{
  ℕ, zero, suc, ◌+◌, ◌/◌, ◌≤◌, ◌<◌, String, ◌≡◌, refl, ap, sym, inl, inr, false, Option, none, some,
  ltb, ◌==◌, ==_iff, str_eq, str_eq_iff, has_char, if◌then◌else◌, Bool-cases, arith,
}

-- A token: the id and the time in unary, with a dot between them.
abbrev pub unary : ℕ → String → String
unary zero rest = rest
unary (suc n) rest = "i" ◂ unary n rest

abbrev pub sign : ℕ → ℕ → String
sign id now = unary id ("." ◂ unary now empty)

abbrev pub lead : String → ℕ
lead empty = 0
lead (c ◂ text) = let rest = lead text in if code c == code "i" then suc rest else 0

pub lead-sign : (id now : ℕ) → lead (sign id now) ≡ id
lead-sign zero now = refl
lead-sign (suc id) now = ap suc (lead-sign id now)

pub not_empty : (c : Char) (text : String) → str_eq (c ◂ text) "" ≡ false
not_empty c text = elim (Bool-cases (str_eq (c ◂ text) "")) [
  | inl e ↦ cc ((str_eq_iff (c ◂ text) "").0 e)
  | inr e ↦ e
]

pub sign_present : (id now : ℕ) → str_eq (sign id now) "" ≡ false
sign_present zero now = not_empty "." (unary now empty)
sign_present (suc id) now = not_empty "i" (sign id now)

-- What is behind the first dot.
abbrev behind : String → String
behind empty = empty
behind (c ◂ text) = let rest = behind text in if code c == code "i" then rest else text

behind-unary : (n : ℕ) (text : String) → behind (unary n ("." ◂ text)) ≡ text
behind-unary zero text = refl
behind-unary (suc n) text = behind-unary n text

lead-unary : (n : ℕ) (text : String) → lead (unary n ("." ◂ text)) ≡ n
lead-unary zero text = refl
lead-unary (suc n) text = ap suc (lead-unary n text)

-- A text without its spaces, two characters for each.
abbrev mask : String → String
mask empty = empty
mask (c ◂ text) =
    let rest = mask text in if code c == code " " then "-" ◂ ("x" ◂ rest) else "+" ◂ (c ◂ rest)

abbrev unmask : String → String
unmask empty = empty
unmask (m ◂ empty) = empty
unmask (m ◂ (c ◂ text)) =
    let rest = unmask text in if code m == code "-" then " " ◂ rest else c ◂ rest

unmask-mask : (text : String) → unmask (mask text) ≡ text
unmask-mask empty = refl
unmask-mask (c ◂ text) = elim (Bool-cases (code c == code " ")) [
  | inl blank ↦
      let same : (◌≡◌ {A = Char} c " ") = Char-path c " " ((==_iff (code c) (code " ")).0 blank) in
      rw blank (rw (unmask-mask text) (ap (λ d. d ◂ text) (sym same)))
  | inr other ↦ rw other (rw (unmask-mask text) refl)
]

mask_plain : (text : String) → has_char " " (mask text) ≡ false
mask_plain empty = refl
mask_plain (c ◂ text) = elim (Bool-cases (code c == code " ")) [
  | inl blank ↦ rw blank (mask_plain text)
  | inr other ↦ rw other (rw other (mask_plain text))
]

unary_plain :
    (n : ℕ) (text : String) → has_char " " text ≡ false → has_char " " (unary n text) ≡ false
unary_plain zero text h = h
unary_plain (suc n) text h = unary_plain n text h

abbrev pub sign_access : ℕ → String → ℕ → String
sign_access id email now = unary id ("." ◂ unary now ("." ◂ mask email))

-- A token that was signed at the time `now`, at a later one.
abbrev at_time : ℕ → ℕ → ℕ → String → Option (ℕ × String)
at_time later now id email =
    if ltb (later / 1000) (now / 1000 + 900) then some (id, email) else none

abbrev pub verify_access : ℕ → String → Option (ℕ × String)
verify_access later token =
    at_time later (lead (behind token)) (lead token) (unmask (behind (behind token)))

verify_access_lem :
    (id : ℕ) (email : String) (now later : ℕ)
    → verify_access later (sign_access id email now) ≡ at_time later now id email
verify_access_lem id email now later =
    rw
      (
        behind-unary id (unary now ("." ◂ mask email)),
        lead-unary id (unary now ("." ◂ mask email)),
        behind-unary now (mask email),
        lead-unary now (mask email),
        unmask-mask email,
      )
      refl

pub verify_access-sign :
    (id : ℕ) (email : String) (now later : ℕ)
    → later / 1000 < now / 1000 + 900
    → verify_access later (sign_access id email now) ≡ some (id, email)
verify_access-sign id email now later soon =
    rw (verify_access_lem id email now later) (ground arith)

pub verify_access_expired :
    (id : ℕ) (email : String) (now later : ℕ)
    → now / 1000 + 900 ≤ later / 1000
    → verify_access later (sign_access id email now) ≡ none
verify_access_expired id email now later late =
    rw (verify_access_lem id email now later) (ground arith)

pub sign_access_plain :
    (id : ℕ) (email : String) (now : ℕ) → has_char " " (sign_access id email now) ≡ false
sign_access_plain id email now =
    unary_plain id ("." ◂ unary now ("." ◂ mask email))
      (unary_plain now ("." ◂ mask email) (mask_plain email))
