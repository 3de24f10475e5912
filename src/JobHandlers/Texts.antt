-- ===== src/JobHandlers/Texts.antt =====
-- What worker/jobHandlers/aiHandlers.js does with the characters of a text.
use Prim.Native.Char.{Char, code}
use Prim.Native.String.{[] as empty, ◌∷◌ as ◌◂◌}
use ai_distributed_job_platf.Prelude.{
  ℕ, ◌+◌, String, Bool, false, ◌&&◌, ◌||◌, ◌==◌, leb, ltb, is_empty, if◌then◌else◌, starts_with,
}

-- The white space and line ends that `trim` removes and `\s` matches.
unfoldable pub is_space : Char → Bool
is_space c =
    (leb 9 (code c) && leb (code c) 13)
    || code c == 32
    || code c == 160
    || code c == 5760
    || (leb 8192 (code c) && leb (code c) 8202)
    || code c == 8232
    || code c == 8233
    || code c == 8239
    || code c == 8287
    || code c == 12288
    || code c == 65279

abbrev pub trim_start : String → String
trim_start empty = ""
trim_start (c ◂ text) = let rest = trim_start text in if is_space c then rest else c ◂ text

abbrev pub trim_end : String → String
trim_end empty = ""
trim_end (c ◂ text) =
    let rest = trim_end text in if is_space c && is_empty rest then "" else c ◂ rest

abbrev pub trim : String → String
trim text = trim_end (trim_start text)

-- `text.length`: characters outside the Basic Multilingual Plane count twice.
abbrev pub utf16_length : String → ℕ
utf16_length empty = 0
utf16_length (c ◂ text) = (if ltb (code c) 65536 then 1 else 2) + utf16_length text

-- `replace(/[."']/g, "")`.
abbrev pub without_punctuation : String → String
without_punctuation empty = ""
without_punctuation (c ◂ text) =
    let rest = without_punctuation text in
    if code c == code "." || code c == code "\"" || code c == code "'" then rest else c ◂ rest

-- A letter in either case.
abbrev either_case : Char → Char → Char → Bool
either_case c upper lower = code c == code upper || code c == code lower

-- What is left of `(?:json)?\s*`, without regard to case.
abbrev pub drop_language : String → String
drop_language (c ◂ (d ◂ (e ◂ (f ◂ text)))) =
    if either_case c "J" "j"
      && either_case d "S" "s"
      && either_case e "O" "o"
      && either_case f "N" "n"
    then trim_start text
    else trim_start (c ◂ (d ◂ (e ◂ (f ◂ text))))
drop_language text = trim_start text

-- `replace(/^```(?:json)?\s*/i, "")`.
abbrev pub strip_open : String → String
strip_open (c ◂ (d ◂ (e ◂ text))) =
    if starts_with "```" (c ◂ (d ◂ (e ◂ text))) then drop_language text else c ◂ (d ◂ (e ◂ text))
strip_open text = text

abbrev pub is_fence : String → Bool
is_fence (c ◂ (d ◂ (e ◂ empty))) = starts_with "```" (c ◂ (d ◂ (e ◂ empty)))
is_fence _ = false

-- `replace(/\s*```$/, "")`: the first place from which white space and a fence lead to the end.
abbrev pub strip_close : String → String
strip_close empty = ""
strip_close (c ◂ text) =
    let rest = strip_close text in if is_fence (trim_start (c ◂ text)) then "" else c ◂ rest

-- The text that is parsed.
abbrev pub cleaned : String → String
cleaned text = strip_close (strip_open (trim text))
