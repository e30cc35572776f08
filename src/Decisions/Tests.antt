-- ===== src/Decisions/Tests.antt =====
-- Runs of the workbench's checks, and its theorems at one input.
use dgx_spark_llm_platform.Base.{[], ◌∷◌, Option, none, some, ◌≡◌, refl, if◌then◌else◌}
use dgx_spark_llm_platform.Base.Text.{
  Text, codes, text_eq, is_blank, is_space, trim, trim_start, trim_end,
}
use dgx_spark_llm_platform.Zip.{encode, encode_from}
use dgx_spark_llm_platform.Decisions.{
  Question, noul, ok, one_question, typed, instructed, of_kind, kind_of, text_or_empty, assign,
  build, and_then, build_all, with_state, files_of, or_empty_object, Body, validate_payload,
  parse_state, validate_state, typed_state,
}
use dgx_spark_llm_platform.Decisions.Value.{
  Json, string, object, no_field, field, get_field, count_fields,
}
use dgx_spark_llm_platform.Decisions.Again.{IsQuestion, json_of, one_question-IsQuestion}
use dgx_spark_llm_platform.Decisions.Accepted.{IsAccepted, validate_payload-IsAccepted}

abbrev asked : Question
asked = record { kind = noul; instructions = codes "hot?"; criteria = none }

one_question_run : one_question (codes "a") (json_of asked) ≡ ok asked
unfolding one_question typed instructed of_kind kind_of text_or_empty get_field text_eq is_blank
    is_space
one_question_run = refl

one_question-IsQuestion_example :
    (one_question (codes "a") (json_of asked) ≡ ok asked → IsQuestion asked)
    × (IsQuestion asked → one_question (codes "a") (json_of asked) ≡ ok asked)
one_question-IsQuestion_example = one_question-IsQuestion (codes "a") (json_of asked) asked

-- A parser that knows one text.
abbrev parse : Text → Option Json
parse s =
    if text_eq s (codes "Q")
    then some (object (field (codes "a") (json_of asked) no_field))
    else none

abbrev stringify : Json → Text
stringify v = codes "s"

abbrev sent : Body
sent = record { state = string (codes "warm"); questions = (codes "a", asked) ∷ []; files = none }

validate_payload_run : validate_payload parse stringify (codes "warm") (codes "Q") [] ≡ ok sent
unfolding validate_payload parse_state validate_state typed_state build_all with_state files_of
    or_empty_object build and_then assign one_question typed instructed of_kind kind_of
    text_or_empty get_field count_fields text_eq is_blank is_space trim trim_start trim_end encode
    encode_from
validate_payload_run = refl

validate_payload-IsAccepted_example : IsAccepted parse stringify (codes "warm") (codes "Q") sent
validate_payload-IsAccepted_example =
    validate_payload-IsAccepted parse stringify (codes "warm") (codes "Q") [] sent
      validate_payload_run

-- A question called `__proto__` is not sent.
proto_run : assign (codes "__proto__") asked [] ≡ []
unfolding assign text_eq
proto_run = refl
