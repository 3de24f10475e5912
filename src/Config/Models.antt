-- ===== src/Config/Models.antt =====
-- The chain of models that is configured (config/env.js, `aiModels`).
use Prim.Native.Char.{code}
use Prim.Native.String.{[] as empty, ◌∷◌ as ◌◂◌}
use ai_distributed_job_platf.Prelude.{
  ◌≡◌, refl, ap, ◌∙◌, String, true, false, ◌==◌, List, [], ◌∷◌, some, All, append, is_empty,
  split_on, split_on_whole, prepend, has_char, arith,
}
use ai_distributed_job_platf.JobHandlers.Texts.{is_space, trim_start, trim_end, trim}
use ai_distributed_job_platf.JobHandlers.Fences.{begins, ends}
use ai_distributed_job_platf.Config.{Environment, trimmed, ai_models}

-- A name as it may stand in the list: no comma in it, no white space around it.
pub record IsName (name : String) : Type 0 where
  pub plain : has_char "," name ≡ false
  pub begins : begins name ≡ true
  pub ends : ends name ≡ true

-- The names, with a comma and a space between them.
abbrev pub listed : List String → String
listed [] = ""
listed (name ∷ []) = name
listed (name ∷ next ∷ names) = append name (append ", " (listed (next ∷ names)))

split_on-append :
    (text rest : String)
    → has_char "," text ≡ false
    → split_on "," (append text ("," ◂ rest)) ≡ text ∷ split_on "," rest
split_on-append empty rest h = refl
split_on-append (c ◂ text) rest h =
    let here : (code c == code ",") ≡ false = ground arith in
    rw (here, split_on-append text rest (ground arith)) refl

trim_start_same : (text : String) → begins text ≡ true → trim_start text ≡ text
trim_start_same empty h = refl
trim_start_same (c ◂ text) h = ground arith

ends_full : (text : String) → ends text ≡ true → is_empty text ≡ false
ends_full empty h = absurd (ground arith)
ends_full (c ◂ text) h = refl

trim_end_same : (text : String) → ends text ≡ true → trim_end text ≡ text
trim_end_same empty h = refl
trim_end_same (c ◂ empty) h = ground arith
trim_end_same (c ◂ (d ◂ text)) h = rw (trim_end_same (d ◂ text) h) (ground arith)

trim_same : (text : String) → begins text ≡ true → ends text ≡ true → trim text ≡ text
trim_same text start end = ap trim_end (trim_start_same text start) ∙ trim_end_same text end

-- A space more in front of a part is trimmed.
trim_space : (text : String) → trim (" " ◂ text) ≡ trim text
unfolding is_space
trim_space text = refl

trimmed-cons :
    (part : String) (parts : List String)
    → begins part ≡ true
    → ends part ≡ true
    → trimmed (part ∷ parts) ≡ part ∷ trimmed parts
trimmed-cons part parts start end = rw (trim_same part start end, ends_full part end) refl

split_space : (text : String) → trimmed (split_on "," (" " ◂ text)) ≡ trimmed (split_on "," text)
unfolding is_space
split_space text = trimmed_prepend (split_on "," text)
  where
    trimmed_prepend : (parts : List String) → trimmed (prepend " " parts) ≡ trimmed parts
    trimmed_prepend [] = refl
    trimmed_prepend (part ∷ parts) = refl

trimmed-listed :
    (name : String) (names : List String)
    → All IsName (name ∷ names)
    → trimmed (split_on "," (listed (name ∷ names))) ≡ name ∷ names
trimmed-listed name [] (first, _) =
    ap trimmed (split_on_whole "," name first.plain) ∙ trimmed-cons name [] first.begins first.ends
trimmed-listed name (next ∷ names) (first, rest) =
    ap trimmed (split_on-append name (" " ◂ listed (next ∷ names)) first.plain)
    ∙ trimmed-cons name (split_on "," (" " ◂ listed (next ∷ names))) first.begins first.ends
    ∙ ap (λ l. name ∷ l) (split_space (listed (next ∷ names)) ∙ trimmed-listed next names rest)

append_full : (text rest : String) → is_empty text ≡ false → is_empty (append text rest) ≡ false
append_full empty rest h = absurd (ground arith)
append_full (c ◂ text) rest h = refl

listed_full :
    (name : String) (names : List String)
    → ends name ≡ true
    → is_empty (listed (name ∷ names)) ≡ false
listed_full name [] h = ends_full name h
listed_full name (next ∷ names) h = append_full name _ (ends_full name h)

-- Reading a list that is written with commas and spaces gives the list back, in its order: if
-- `AI_MODELS` lists one or more names, which have no commas in them and no white space around them,
-- then these are the models of the chain.
pub ai_models-listed :
    (environment : Environment) (name : String) (names : List String)
    → environment "AI_MODELS" ≡ some (listed (name ∷ names))
    → All IsName (name ∷ names)
    → ai_models environment ≡ name ∷ names
unfolding ai_models
ai_models-listed environment name names e h =
    rw (e, listed_full name names h.0.ends) (trimmed-listed name names h)
