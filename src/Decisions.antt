-- ===== src/Decisions.antt =====
-- The requests of the decisions workbench: dgx-portal-frontend/lib/decisions.ts. `JSON.parse` and
-- `JSON.stringify` are parameters. An object is the list of its fields, in the order of
-- `Object.entries`.
pub mod Value
mod Tests
pub mod Again
pub mod Accepted
use dgx_spark_llm_platform.Base.{
  ℕ, zero, suc, ◌*◌, Bool, true, false, not, ◌&&◌, ◌||◌, List, [], ◌∷◌, ◌++◌, Option, none, some,
  length, ltb, ◌==◌, if◌then◌else◌,
}
use dgx_spark_llm_platform.Base.Text.{Text, codes, text_eq, trim, is_blank}
use dgx_spark_llm_platform.Zip.{encode}
use dgx_spark_llm_platform.Decisions.Value.{
  Json, Items, Fields, null, truth, number, string, array, object, no_item, item, no_field, field,
  count_items, count_fields, get_field, all_texts,
}

abbrev pub max_questions : ℕ
max_questions = 32

abbrev pub max_state_bytes : ℕ
max_state_bytes = 64 * 1024

abbrev pub max_choices : ℕ
max_choices = 255

abbrev pub max_levels : ℕ
max_levels = 10

-- The refusals; those about one question carry its identifier.
pub data Refusal : Type 0 where
  state_empty : Refusal
  state_too_large : Refusal
  questions_not_json : Refusal
  questions_not_object : Refusal
  no_question : Refusal
  too_many_questions : Refusal
  bad_identifier : Refusal
  not_an_object : Text → Refusal
  unknown_type : Text → Text → Refusal
  no_instructions : Text → Refusal
  no_criteria : Text → Refusal
  bad_choices : Text → Refusal
  bad_levels : Text → Refusal
  level_not_text : Text → Refusal

pub data Result {ℓ} (A : Type ℓ) : Type ℓ where
  ok : A → Result A
  refused : Refusal → Result A

pub data Kind : Type 0 where
  noul : Kind
  choice : Kind
  score : Kind

-- A question as it is sent: its type, its `instructions` and its `criteria`.
pub record Question : Type 0 where
  pub kind : Kind
  pub instructions : Text
  pub criteria : Option Json

-- `typeof q.type === "string" ? q.type : ""`
unfoldable pub text_or_empty : Option Json → Text
text_or_empty (some (string s)) = s
text_or_empty _ = []

unfoldable pub kind_of : Text → Option Kind
kind_of s =
    if text_eq s (codes "noul")
    then some noul
    else if text_eq s (codes "choice")
    then some choice
    else if text_eq s (codes "score")
    then some score
    else none

-- The criteria of a choice.
unfoldable pub choices : Text → Text → Option Json → Result Question
choices id instructions (some (object fields)) =
    if ltb (count_fields fields) 2 || ltb max_choices (count_fields fields)
    then refused (bad_choices id)
    else ok (record { kind = choice; instructions = instructions; criteria = some (object fields) })
choices id instructions _ = refused (no_criteria id)

-- The criteria of a score.
unfoldable pub levels : Text → Text → Option Json → Result Question
levels id instructions (some (array items)) =
    if ltb (count_items items) 2 || ltb max_levels (count_items items)
    then refused (bad_levels id)
    else if not (all_texts items)
    then refused (level_not_text id)
    else ok (record { kind = score; instructions = instructions; criteria = some (array items) })
levels id instructions _ = refused (bad_levels id)

unfoldable pub of_kind : Text → Kind → Text → Option Json → Result Question
of_kind id noul instructions criteria =
    ok (record { kind = noul; instructions = instructions; criteria = none })
of_kind id choice instructions criteria = choices id instructions criteria
of_kind id score instructions criteria = levels id instructions criteria

-- The test of `instructions`.
unfoldable pub instructed : Text → Kind → Option Json → Option Json → Result Question
instructed id kind (some (string s)) criteria =
    if is_blank s then refused (no_instructions id) else of_kind id kind s criteria
instructed id kind _ criteria = refused (no_instructions id)

unfoldable pub typed : Text → Text → Option Kind → Fields → Result Question
typed id type none fields = refused (unknown_type id type)
typed id type (some kind) fields =
    instructed id kind (get_field (codes "instructions") fields)
      (get_field (codes "criteria") fields)

unfoldable pub one_question : Text → Json → Result Question
one_question id (object fields) =
    let type = text_or_empty (get_field (codes "type") fields) in
    typed id type (kind_of type) fields
one_question id _ = refused (not_an_object id)

-- `questions[id] = question`: under `__proto__` it sets the prototype, and no field.
unfoldable pub assign : Text → Question → List (Text × Question) → List (Text × Question)
assign id q questions =
    if text_eq id (codes "__proto__") then questions else questions ++ (id, q) ∷ []

-- `if (!built.ok) return built`
unfoldable pub and_then {ℓ κ} : {A : Type ℓ} {B : Type κ} → Result A → (A → Result B) → Result B
and_then (ok a) next = next a
and_then (refused why) next = refused why

-- The loop over the entries.
unfoldable pub build : Fields → List (Text × Question) → Result (List (Text × Question))
unfolding and_then
build no_field questions = ok questions
build (field id raw rest) questions =
    if length id == 0 || ltb 64 (length id)
    then refused bad_identifier
    else and_then (one_question id raw) (λ q. build rest (assign id q questions))

-- The body of the request.
pub record Body : Type 0 where
  pub state : Json
  pub questions : List (Text × Question)
  pub files : Option (List Text)

-- `if (files.length > 0) body.files = files`
unfoldable pub files_of : List Text → Option (List Text)
files_of [] = none
files_of (f ∷ files) = some (f ∷ files)

-- `questionsText.trim() || "{}"`
unfoldable pub or_empty_object : Text → Text
or_empty_object [] = codes "{}"
or_empty_object (c ∷ s) = c ∷ s

-- The entries of the questions, and the loop over them.
unfoldable pub build_all : Option Json → Result (List (Text × Question))
unfolding build one_question typed instructed of_kind choices levels kind_of text_or_empty assign
build_all none = refused questions_not_json
build_all (some (object no_field)) = refused no_question
build_all (some (object (field id raw rest))) =
    if ltb max_questions (count_fields (field id raw rest))
    then refused too_many_questions
    else build (field id raw rest) []
build_all (some _) = refused questions_not_object

unfoldable pub with_state : Json → List Text → Result (List (Text × Question)) → Result Body
with_state state files (refused why) = refused why
with_state state files (ok questions) =
    ok (record { state = state; questions = questions; files = files_of files })

module _ (parse : Text → Option Json) (stringify : Json → Text) where
  -- The state: its JSON value, or the text as it was typed.
  unfoldable pub typed_state : Text → Option Json → Json
  typed_state text none = string text
  typed_state text (some v) = v

  unfoldable pub parse_state : Text → Result Json
  unfolding typed_state
  parse_state text =
      if is_blank text then refused state_empty else ok (typed_state text (parse (trim text)))

  unfoldable pub validate_state : Result Json → Text → List Text → Result Body
  unfolding build_all with_state files_of or_empty_object
  validate_state (refused why) questions_text files = refused why
  validate_state (ok state) questions_text files =
      if ltb max_state_bytes (length (encode (stringify state)))
      then refused state_too_large
      else with_state state files (build_all (parse (or_empty_object (trim questions_text))))

  unfoldable pub validate_payload : Text → Text → List Text → Result Body
  unfolding parse_state validate_state
  validate_payload state_text questions_text files =
      validate_state (parse_state state_text) questions_text files
