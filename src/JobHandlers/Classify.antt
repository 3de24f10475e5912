-- ===== src/JobHandlers/Classify.antt =====
-- The labels that the classifier answers (worker/jobHandlers/aiHandlers.js, `classifyHandler`).
use ai_distributed_job_platf.Prelude.{
  ℕ, ◌≤◌, ◌≡◌, ◌≢◌, refl, sym, ap, ◌∙◌, inl, inr, String, Bool, true, false, ◌||◌, List, Option,
  none, some, Outcome, ok, threw, ltb, str_eq, str_eq_iff, is_empty, Bool-cases, arith,
}
use ai_distributed_job_platf.Models.Json.{Json, null, bool, num, str, arr, obj, Items, nil, cons}
use ai_distributed_job_platf.Ai.{Generated, generate}
use ai_distributed_job_platf.JobHandlers.Ai.{
  Chat, WithMeta, with_meta, no_method, find_label, check_label, classify_prompt, raw_reply,
  labelled, classify_handler,
}
use ai_distributed_job_platf.JobHandlers.Payloads.{
  ◌>>=◌, property, validate_text, check_items, count,
}

-- What a chain of `await`s that returns has awaited.
pub bind_ok :
    {A B : Type 0} (m : Outcome A) (k : A → Outcome B) (b : B)
    → (m >>= k) ≡ ok b
    → (x : A) × (m ≡ ok x) × (k x ≡ ok b)
bind_ok (ok x) k b h = (x, refl, h)
bind_ok (threw err) k b h = absurd (ground arith)

-- Whether a text is among the items.
abbrev pub is_item : String → Items → Bool
is_item text nil = false
is_item text (cons (str item) items) = let rest = is_item text items in str_eq item text || rest
is_item text (cons item items) = is_item text items

pub check_items_ok :
    (least : ℕ) (message : String) (value : Option Json) (items : Items)
    → check_items least message value ≡ ok items
    → (value ≡ some (arr items)) × (least ≤ count items)
check_items_ok least message none items h = absurd (ground arith)
check_items_ok least message (some null) items h = absurd (ground arith)
check_items_ok least message (some (bool b)) items h = absurd (ground arith)
check_items_ok least message (some (num n)) items h = absurd (ground arith)
check_items_ok least message (some (str text)) items h = absurd (ground arith)
check_items_ok least message (some (obj fields)) items h = absurd (ground arith)
check_items_ok least message (some (arr found)) items h = (ground arith, ground arith)

enough_items :
    (first second : Json) (rest : Items) → ltb (count (cons first (cons second rest))) 2 ≡ false
enough_items first second rest = ground arith

no_method_plain : (label : Json) → (no_method label).retryable ≡ none
no_method_plain null = refl
no_method_plain (bool b) = refl
no_method_plain (num n) = refl
no_method_plain (str text) = refl
no_method_plain (arr items) = refl
no_method_plain (obj fields) = refl

module _ (to_lower_case : String → String) where
  find_label-some :
      (raw : String) (labels : Items) (label : String)
      → find_label to_lower_case raw labels ≡ ok (some label)
      → (is_item label labels ≡ true) × (to_lower_case label ≡ raw)
  find_label-some raw nil label h = absurd (ground arith)
  find_label-some raw (cons null labels) label h = absurd (ground arith)
  find_label-some raw (cons (bool b) labels) label h = absurd (ground arith)
  find_label-some raw (cons (num n) labels) label h = absurd (ground arith)
  find_label-some raw (cons (arr items) labels) label h = absurd (ground arith)
  find_label-some raw (cons (obj fields) labels) label h = absurd (ground arith)
  find_label-some raw (cons (str first) labels) label h =
      elim (Bool-cases (str_eq (to_lower_case first) raw)) [
        | inl hit ↦
            let same : first ≡ label = ground arith in
            (
              rw ((str_eq_iff first label).1 same) refl,
              sym (ap to_lower_case same) ∙ (str_eq_iff (to_lower_case first) raw).0 hit,
            )
        | inr miss ↦
            let (among, same) = find_label-some raw labels label (ground arith) in
            (ground arith, same)
      ]

  -- The checks behind the search return a label that was found and is not empty.
  check_label_ok :
      (labels : Items) (reply : Generated) (o : Option String) (r : WithMeta String)
      → (check_label reply.completion.text labels o >>= λ label. ok (with_meta reply label)) ≡ ok r
      → (o ≡ some r.output) × (is_empty r.output ≡ false)
  check_label_ok labels reply none r h = absurd (ground arith)
  check_label_ok labels reply (some found) r h = elim (Bool-cases (is_empty found)) [
    | inl blank ↦ absurd (ground arith)
    | inr given ↦
        let same : found ≡ r.output = ground arith in (ap some same, sym (ap is_empty same) ∙ given)
  ]

  found_ok :
      (labels : Items) (reply : Generated) (f : Outcome (Option String)) (r : WithMeta String)
      → (f >>= λ found.
          check_label reply.completion.text labels found >>= λ label. ok (with_meta reply label))
        ≡ ok r
      → (f ≡ ok (some r.output)) × (is_empty r.output ≡ false)
  found_ok labels reply (threw err) r h = absurd (ground arith)
  found_ok labels reply (ok o) r h =
      let (same, given) = check_label_ok labels reply o r h in (ap ok same, given)

  asked_ok :
      (chat : Chat) (models : List String) (v : Outcome String) (c : Outcome Items)
      (r : WithMeta String)
      → (v >>= λ text. c >>= λ labels.
          generate (chat (classify_prompt labels text)) models >>= labelled to_lower_case labels)
        ≡ ok r
      → (text : String) × (labels : Items) × (reply : Generated) × (v ≡ ok text)
        × (c ≡ ok labels)
        × (generate (chat (classify_prompt labels text)) models ≡ ok reply)
        × (labelled to_lower_case labels reply ≡ ok r)
  asked_ok chat models (threw err) c r h = absurd (ground arith)
  asked_ok chat models (ok text) (threw err) r h = absurd (ground arith)
  asked_ok chat models (ok text) (ok labels) r h =
      let (reply, answered, rest) =
        bind_ok (generate (chat (classify_prompt labels text)) models)
          (labelled to_lower_case labels) r h in
      (text, labels, reply, refl, refl, answered, rest)

  -- Never does the classifier return a label that was not asked for: if it returns, then the labels
  -- of the payload were an array of at least two, the label returned is one of its texts, is not
  -- empty, and is what the model replied, but for case, white space around it and the characters
  -- `.`, `"` and `'`.
  pub classify_handler_sound :
      (chat : Chat) (models : List String) (payload : Json) (r : WithMeta String)
      → classify_handler to_lower_case chat models payload ≡ ok r
      → (text : String) × (labels : Items) × (reply : Generated) × (validate_text payload ≡ ok text)
        × (property "labels" payload ≡ some (arr labels))
        × (2 ≤ count labels)
        × (generate (chat (classify_prompt labels text)) models ≡ ok reply)
        × (is_item r.output labels ≡ true)
        × (is_empty r.output ≡ false)
        × (to_lower_case r.output ≡ raw_reply to_lower_case reply.completion.text)
  unfolding classify_handler
  classify_handler_sound chat models payload r h =
      let (text, labels, reply, valid, given, answered, rest) =
        asked_ok chat models (validate_text payload)
          (check_items 2 "payload.labels must be an array of at least 2 labels"
            (property "labels" payload))
          r h in
      let (array, enough) = check_items_ok 2 _ (property "labels" payload) labels given in
      let (search, full) = found_ok labels reply _ r rest in
      let (among, same) =
        find_label-some (raw_reply to_lower_case reply.completion.text) labels r.output search in
      (text, labels, reply, valid, array, enough, answered, among, full, same)

  untyped_label :
      (first : Json) (rest : Items) (raw : String)
      → ((label : String) → first ≢ str label)
      → find_label to_lower_case raw (cons first rest) ≡ threw (no_method first)
  untyped_label null rest raw untyped = refl
  untyped_label (bool b) rest raw untyped = refl
  untyped_label (num n) rest raw untyped = refl
  untyped_label (arr items) rest raw untyped = refl
  untyped_label (obj fields) rest raw untyped = refl
  untyped_label (str label) rest raw untyped = absurd (untyped label refl)

  -- A label that is no text is not refused as bad input, though it fails each time in the same way:
  -- if the first of two or more labels is none, the model is asked, and a reply of it ends in an
  -- error that does not forbid a retry.
  pub classify_handler-untyped :
      (chat : Chat) (models : List String) (payload first second : Json) (rest : Items)
      (text : String) (reply : Generated)
      → validate_text payload ≡ ok text
      → property "labels" payload ≡ some (arr (cons first (cons second rest)))
      → ((label : String) → first ≢ str label)
      → generate (chat (classify_prompt (cons first (cons second rest)) text)) models ≡ ok reply
      → (classify_handler to_lower_case chat models payload ≡ threw (no_method first))
        × ((no_method first).retryable ≡ none)
  unfolding classify_handler
  classify_handler-untyped chat models payload first second rest text reply valid given untyped
        answered =
      rw (valid, given, enough_items first second rest, answered)
        (rw
          (untyped_label first (cons second rest) (raw_reply to_lower_case reply.completion.text)
            untyped)
          (refl, no_method_plain first))
