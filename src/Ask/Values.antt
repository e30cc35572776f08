-- ===== src/Ask/Values.antt =====
-- The values inside the blocks of an answer: the repair chain, the edits of `parseEdits` and the
-- questions of `questionsOf`, of dgx-portal-frontend/lib/playground-parsers.ts. `JSON.parse` is a
-- parameter, none where it throws.
use dgx_spark_llm_platform.Base.{
  ℕ, Bool, true, false, ◌&&◌, List, [], ◌∷◌, Option, none, some, take, drop, ◌==◌, if◌then◌else◌,
}
use dgx_spark_llm_platform.Base.Text.{Text, codes, trim, is_space, newline, starts_with}
use dgx_spark_llm_platform.Repair.{
  escape_raw_control_chars, first_json_value, balance_json, repair_closings,
}
use dgx_spark_llm_platform.Decisions.Value.{
  Json, null, truth, string, array, object, Items, no_item, item, get_field,
}
use dgx_spark_llm_platform.Ask.Blocks.{up_to_fence}

-- `MAX_ASK_QUESTIONS` and `MAX_ASK_OPTIONS`
abbrev pub max_ask_questions : ℕ
max_ask_questions = 20

abbrev pub max_ask_options : ℕ
max_ask_options = 8

pub record AskQ : Type 0 where
  pub question : Text
  pub options : List Text

pub record FileEdit : Type 0 where
  pub file : Text
  pub find : Text
  pub replace : Text

unfoldable pub or_value : Option Json → Option Json → Option Json
or_value (some v) other = some v
or_value none other = other

-- `firstJsonValue(repaired) ?? balanceJson(repaired)`
unfoldable pub first_or_balanced : Text → Text
unfolding first_json_value balance_json
first_or_balanced repaired = elim (first_json_value repaired) [
  | none ↦ balance_json repaired
  | some cut ↦ cut
]

-- The attempts to read a value, in order.
unfoldable pub read_value : (Text → Option Json) → Text → Option Json
unfolding or_value first_or_balanced escape_raw_control_chars repair_closings
read_value parse body =
    let repaired = escape_raw_control_chars body in
    or_value (parse body) (
      or_value (parse repaired)
        (or_value (parse (first_or_balanced repaired)) (parse (repair_closings repaired))))

-- `if (v)` on a member that may be missing; a number, whose object gives no entry either way, is
-- taken for true.
unfoldable pub is_truthy : Option Json → Bool
is_truthy none = false
is_truthy (some null) = false
is_truthy (some (truth b)) = b
is_truthy (some (string [])) = false
is_truthy (some _) = true

-- `Array.isArray(v) ? v : obj.key ? [obj] : []`
unfoldable pub list_or_one : Json → Option Json → Option Json → Items
unfolding is_truthy
list_or_one obj (some (array items)) one = items
list_or_one obj list one = if is_truthy one then item obj no_item else no_item

-- `typeof v === "string" ? v : ""`
unfoldable pub string_or_empty : Option Json → Text
string_or_empty (some (string s)) = s
string_or_empty v = []

-- A member of a value that is not null: only an object has one here.
unfoldable pub member : Text → Json → Option Json
unfolding get_field
member name (object fields) = get_field name fields
member name v = none

unfoldable pub edit_of : Json → FileEdit
unfolding string_or_empty member
edit_of e = record {
  file = trim (string_or_empty (member (codes "file") e));
  find = string_or_empty (member (codes "find") e);
  replace = string_or_empty (member (codes "replace") e);
}

unfoldable pub is_filled : Text → Bool
is_filled [] = false
is_filled (c ∷ s) = true

unfoldable pub cons_option {ℓ} : {A : Type ℓ} → Bool → A → Option (List A) → Option (List A)
cons_option keep a none = none
cons_option keep a (some rest) = some (if keep then a ∷ rest else rest)

-- The edits of the entries that replace something: none where an entry is null, whose members throw.
unfoldable pub edits_of : Items → Option (List FileEdit)
unfolding edit_of is_filled cons_option
edits_of no_item = some []
edits_of (item null items) = none
edits_of (item e items) =
    let edit = edit_of e in cons_option (is_filled edit.find) edit (edits_of items)

unfoldable pub or_empty {ℓ} : {A : Type ℓ} → Option (List A) → List A
or_empty none = []
or_empty (some list) = list

-- The entries of what was read: a value that is null throws, one that is no object has no entry.
unfoldable pub edits_in : Option Json → List FileEdit
unfolding or_empty edits_of list_or_one member
edits_in none = []
edits_in (some null) = []
edits_in (some v) =
    or_empty (edits_of (list_or_one v (member (codes "edits") v) (member (codes "find") v)))

-- `\s*\n`: what follows the last line break of the white space at the start.
unfoldable pub behind_blank_line : Text → Option Text
unfolding is_space
behind_blank_line [] = none
behind_blank_line (c ∷ s) =
    let rest = behind_blank_line s in
    if is_space c then or_this rest (if c == newline then some s else none) else none
  where
    or_this : Option Text → Option Text → Option Text
    or_this (some later) here = some later
    or_this none here = here

-- The body of the first "```edit" block.
unfoldable pub edit_body : Text → Option Text
unfolding behind_blank_line starts_with up_to_fence
edit_body [] = none
edit_body (c ∷ s) =
    or_later (if starts_with (codes "```edit") (c ∷ s) then behind_blank_line (drop 6 s) else none)
      (edit_body s)
  where
    or_later : Option Text → Option Text → Option Text
    or_later (some rest) later = some ((up_to_fence rest).0)
    or_later none later = later

unfoldable pub parse_edits : (Text → Option Json) → Text → List FileEdit
unfolding edits_in read_value edit_body
parse_edits parse content = elim (edit_body content) [
  | none ↦ []
  | some body ↦ edits_in (read_value parse (trim body))
]

-- The options that are texts and not blank, trimmed.
unfoldable pub options_of : Items → List Text
unfolding is_filled
options_of no_item = []
options_of (item (string s) items) =
    let rest = options_of items in if is_filled (trim s) then trim s ∷ rest else rest
options_of (item v items) = options_of items

unfoldable pub options_in : Option Json → List Text
unfolding options_of
options_in (some (array items)) = take max_ask_options (options_of items)
options_in v = []

unfoldable pub question_of : Json → AskQ
unfolding options_in member string_or_empty
question_of q = record {
  question = trim (string_or_empty (member (codes "question") q));
  options = options_in (member (codes "options") q);
}

-- `options.length >= 1`
unfoldable pub has_option : List Text → Bool
has_option [] = false
has_option (o ∷ os) = true

unfoldable pub is_asked : AskQ → Bool
unfolding is_filled has_option
is_asked q = is_filled q.question && has_option q.options

-- The entries that ask something: none where one is null, whose members throw.
unfoldable pub questions_in : Items → Option (List AskQ)
unfolding question_of is_asked cons_option
questions_in no_item = some []
questions_in (item null items) = none
questions_in (item q items) =
    let asked = question_of q in cons_option (is_asked asked) asked (questions_in items)

-- `questionsOf`, none where it throws.
unfoldable pub questions_of : (Text → Option Json) → Text → Option (List AskQ)
unfolding questions_in list_or_one member read_value
questions_of parse body = elim (read_value parse body) [
  | none ↦ some []
  | some v ↦
      questions_in (list_or_one v (member (codes "questions") v) (member (codes "question") v))
]
