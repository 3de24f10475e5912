-- ===== src/JobHandlers/Payloads.antt =====
-- How worker/jobHandlers/aiHandlers.js reads and checks the payload of a job.
use ai_distributed_job_platf.Prelude.{
  ℕ, suc, String, true, false, List, [], ◌∷◌, Option, none, some, Error, Outcome, ok, threw, ltb,
  str_eq, show, template, join, is_empty, if◌then◌else◌,
}
use ai_distributed_job_platf.Models.Json.{
  Json, null, bool, num, str, arr, obj, Items, nil, cons, Fields, end, field,
}
use ai_distributed_job_platf.Ai.{ai_error}
use ai_distributed_job_platf.JobHandlers.Texts.{trim, utf16_length}

-- An `await` in an `async` function: a throw ends it.
infixl 5 ◌>>=◌
abbrev pub ◌>>=◌ : {A B : Type 0} → Outcome A → (A → Outcome B) → Outcome B
ok a >>= k = k a
threw err >>= k = threw err

abbrev pub max_input_chars : ℕ
max_input_chars = 20000

-- An own property of a value.
abbrev pub own_field : String → Fields → Option Json
own_field name end = none
own_field name (field key value rest) =
    let found = own_field name rest in if str_eq key name then some value else found

abbrev pub property : String → Json → Option Json
property name (obj fields) = own_field name fields
property name _ = none

abbrev pub bad_input : String → Error
bad_input message = ai_error message none false

abbrev pub checked_text : String → Outcome String
checked_text text =
    if is_empty (trim text)
    then threw (bad_input "payload.text must be a non-empty string")
    else if ltb max_input_chars (utf16_length text)
    then threw
        (bad_input (template ("payload.text exceeds " ∷ show max_input_chars ∷ " characters" ∷ [])))
    else ok text

abbrev pub check_text : Option Json → Outcome String
check_text (some (str text)) = checked_text text
check_text _ = threw (bad_input "payload.text must be a non-empty string")

-- `validateText`, with the text that it has checked.
unfoldable pub validate_text : Json → Outcome String
validate_text payload = check_text (property "text" payload)

unfoldable mutual
  -- `String(value)`, but for `null`, which `join` leaves out.
  pub text_in_join : Json → String
  text_in_join null = ""
  text_in_join (bool true) = "true"
  text_in_join (bool false) = "false"
  text_in_join (num n) = show n
  text_in_join (str text) = text
  text_in_join (arr items) = join "," (texts_in_join items)
  text_in_join (obj fields) = "[object Object]"

  pub texts_in_join : Items → List String
  texts_in_join nil = []
  texts_in_join (cons item items) = text_in_join item ∷ texts_in_join items

abbrev pub joined : Items → String
joined items = join ", " (texts_in_join items)

-- `Array.isArray(value)`, and the length.
abbrev pub count : Items → ℕ
count nil = 0
count (cons item items) = suc (count items)

-- An array of at least `least` items.
abbrev pub check_items : ℕ → String → Option Json → Outcome Items
check_items least message (some (arr items)) =
    if ltb (count items) least then threw (bad_input message) else ok items
check_items least message _ = threw (bad_input message)
