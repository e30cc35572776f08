-- ===== src/Decisions/Accepted.antt =====
-- What a request holds that the workbench lets through.
use dgx_spark_llm_platform.Base.{
  ◌≤◌, ◌<◌, false, ◌||◌, List, [], ◌∷◌, ◌++◌, append-nil, append_assoc, map, Option, none, some,
  length, ltb, ◌==◌, if◌then◌else◌, ◌≡◌, refl, sym, ap, ◌∙◌, arith, All, All-append, Bool-cases,
  inl, inr,
}
use mathlib.Core.Path.{subst}
use dgx_spark_llm_platform.Base.Text.{Text, codes, text_eq, trim, is_blank}
use dgx_spark_llm_platform.Zip.{encode}
use dgx_spark_llm_platform.Decisions.{
  Question, Result, ok, refused, and_then, one_question, assign, build, build_all, with_state,
  or_empty_object, parse_state, validate_state, validate_payload, Body, max_questions,
  max_state_bytes, typed_state,
}
use dgx_spark_llm_platform.Decisions.Value.{
  Json, Fields, null, truth, number, string, array, object, no_field, field, count_fields,
}
use dgx_spark_llm_platform.Decisions.Again.{IsQuestion, Holds, one_question-Holds}

abbrev proto : Text
proto = codes "__proto__"

-- An entry of the request: its identifier has 1 to 64 characters, and its question is well-formed.
abbrev pub IsEntry : Text × Question → Type 0
IsEntry (id, q) = (0 < length id) × (length id ≤ 64) × IsQuestion q

-- The identifiers of an object's fields, less `__proto__`.
abbrev pub names : Fields → List Text
names no_field = []
names (field id raw rest) =
    let others = names rest in if text_eq id proto then others else id ∷ others

abbrev pub ids : List (Text × Question) → List Text
ids = map (λ (id, q). id)

abbrev Built : List Text → List (Text × Question) → Type 0
Built expected out = All IsEntry out × (ids out ≡ expected)

ids-append : (xs ys : List (Text × Question)) → ids (xs ++ ys) ≡ ids xs ++ ids ys
ids-append [] ys = refl
ids-append (x ∷ xs) ys = ap (◌∷◌ (x.0)) (ids-append xs ys)

assign-Built :
    (id : Text) (q : Question) (questions : List (Text × Question)) (rest : List Text)
    → IsEntry (id, q)
    → All IsEntry questions
    → All IsEntry (assign id q questions)
      × (ids (assign id q questions) ++ rest
          ≡ ids questions ++ (if text_eq id proto then rest else id ∷ rest))
unfolding assign
assign-Built id q questions rest h k = elim (Bool-cases (text_eq id proto)) [
  | inl e ↦ rw e (k, refl)
  | inr e ↦ rw e (
    All-append IsEntry questions ((id, q) ∷ []) k (h, tt),
    ap (λ l. l ++ rest) (ids-append questions ((id, q) ∷ []))
        ∙ append_assoc (ids questions) (id ∷ []) rest,
  )
]

build-Built :
    (fields : Fields) (questions : List (Text × Question))
    → All IsEntry questions
    → Holds (Built (ids questions ++ names fields)) (build fields questions)
unfolding build
build-Built no_field questions h = (h, sym (append-nil (ids questions)))
build-Built (field id raw rest) questions h =
    elim (Bool-cases (length id == 0 || ltb 64 (length id))) [
      | inl bad ↦ rw bad tt
      | inr good ↦ rw good (
          next (ground arith) (ground arith) (λ qs k. build-Built rest qs k) (one_question id raw)
            (one_question-Holds id raw))
    ]
  where
    next :
        0 < length id
        → length id ≤ 64
        → ((qs : List (Text × Question))
            → All IsEntry qs
            → Holds (Built (ids qs ++ names rest)) (build rest qs))
        → (r : Result Question) → Holds IsQuestion r
        → Holds
            (Built (ids questions ++ names (field id raw rest)))
            (and_then r (λ q. build rest (assign id q questions)))
    next some_id short later (refused why) k = tt
    next some_id short later (ok q) k =
        let (entries, e) = assign-Built id q questions (names rest) (some_id, short, k) h in
        subst (λ expected. Holds (Built expected) (build rest (assign id q questions))) e
          (later (assign id q questions) entries)

-- The questions of an accepted request, against the JSON value that was typed.
abbrev pub IsFrom : Option Json → List (Text × Question) → Type 0
IsFrom parsed out =
    (fields : Fields) × (parsed ≡ some (object fields))
    × (0 < count_fields fields)
    × (count_fields fields ≤ max_questions)
    × All IsEntry out
    × (ids out ≡ names fields)

build_all-IsFrom : (parsed : Option Json) → Holds (IsFrom parsed) (build_all parsed)
unfolding build_all
build_all-IsFrom none = tt
build_all-IsFrom (some null) = tt
build_all-IsFrom (some (truth v)) = tt
build_all-IsFrom (some (number v)) = tt
build_all-IsFrom (some (string v)) = tt
build_all-IsFrom (some (array v)) = tt
build_all-IsFrom (some (object no_field)) = tt
build_all-IsFrom (some (object (field id raw rest))) =
    elim (Bool-cases (ltb max_questions (count_fields (field id raw rest)))) [
      | inl bad ↦ rw bad tt
      | inr good ↦ rw good (
          wrap (ground arith) (build (field id raw rest) [])
            (build-Built (field id raw rest) [] tt))
    ]
  where
    some_field : 0 < count_fields (field id raw rest)
    some_field = unfold count_fields in omega arith

    wrap :
        count_fields (field id raw rest) ≤ max_questions
        → (r : Result (List (Text × Question))) → Holds (Built (names (field id raw rest))) r
        → Holds (IsFrom (some (object (field id raw rest)))) r
    wrap few (refused why) h = tt
    wrap few (ok out) (entries, e) = (field id raw rest, refl, some_field, few, entries, e)

module _ (parse : Text → Option Json) (stringify : Json → Text) where
  abbrev pub IsAccepted : Text → Text → Body → Type 0
  IsAccepted state_text questions_text body =
      (is_blank state_text ≡ false)
      × (length (encode (stringify body.state)) ≤ max_state_bytes)
      × IsFrom (parse (or_empty_object (trim questions_text))) body.questions

  with_state-IsAccepted :
      (state_text questions_text : Text) (files : List Text) (state : Json)
      → is_blank state_text ≡ false
      → length (encode (stringify state)) ≤ max_state_bytes
      → (r : Result (List (Text × Question)))
      → Holds (IsFrom (parse (or_empty_object (trim questions_text)))) r
      → Holds (IsAccepted state_text questions_text) (with_state state files r)
  unfolding with_state
  with_state-IsAccepted state_text questions_text files state b size (refused why) h = tt
  with_state-IsAccepted state_text questions_text files state b size (ok out) h = (b, size, h)

  holds :
      (state_text questions_text : Text) (files : List Text)
      → Holds
          (IsAccepted state_text questions_text)
          (validate_payload parse stringify state_text questions_text files)
  unfolding validate_payload parse_state validate_state
  holds state_text questions_text files = elim (Bool-cases (is_blank state_text)) [
    | inl blank ↦ rw blank tt
    | inr b ↦
        let state = typed_state parse stringify state_text (parse (trim state_text)) in
        elim (Bool-cases (ltb max_state_bytes (length (encode (stringify state))))) [
          | inl large ↦ rw (b, large) tt
          | inr small ↦
              rw (b, small)
                (with_state-IsAccepted state_text questions_text files state b (ground arith)
                  (build_all (parse (or_empty_object (trim questions_text))))
                  (build_all-IsFrom (parse (or_empty_object (trim questions_text)))))
        ]
  ]

  -- Whatever `JSON.parse` and `JSON.stringify` do: a request that is let through has a state that is
  -- not blank and of at most 64 KiB, its questions were typed as an object of 1 to 32 fields, every
  -- question sent has an identifier of 1 to 64 characters and is well-formed, and the identifiers
  -- sent are those of the fields, in order, less `__proto__`.
  pub validate_payload-IsAccepted :
      (state_text questions_text : Text) (files : List Text) (body : Body)
      → validate_payload parse stringify state_text questions_text files ≡ ok body
      → IsAccepted state_text questions_text body
  validate_payload-IsAccepted state_text questions_text files body h =
      subst (Holds (IsAccepted state_text questions_text)) h (holds state_text questions_text files)
