-- ===== src/Ask/Tests.antt =====
-- Runs and witnesses of the questionnaire, with a `JSON.parse` that knows one text.
use dgx_spark_llm_platform.Base.{
  true, false, [], ◌∷◌, ◌++◌, map, Option, none, some, if◌then◌else◌, ◌≡◌, refl,
}
use dgx_spark_llm_platform.Base.Text.{Text, codes, text_eq, trim, trim_start, trim_end, is_space}
use dgx_spark_llm_platform.Decisions.Value.{
  Json, null, string, array, object, no_item, item, no_field, field,
}
use dgx_spark_llm_platform.Rejoin.{lower}
use dgx_spark_llm_platform.Ask.{AskBlock, parse_ask, incomplete_response}
use dgx_spark_llm_platform.Ask.Values.{questions_of}
use dgx_spark_llm_platform.Ask.Continued.{continuation_body, split_inline_think}
use dgx_spark_llm_platform.Ask.Bounds.{IsQuestionnaire, parse_ask-IsQuestionnaire}

abbrev body : Text
body = codes "{\"question\":\"A?\"}"

abbrev asking : Json
asking = object (
    field (codes "question") (string (codes "A?"))
      (field (codes "options") (array (item (string (codes "b ")) no_item)) no_field))

unfoldable parse : Text → Option Json
unfolding text_eq
parse s = if text_eq s body then some asking else none

abbrev content : Text
content = codes "Hi\n```ask\n" ++ body ++ codes "\n```"

abbrev found_block : AskBlock
found_block = record {
  questions = record { question = codes "A?"; options = codes "b" ∷ [] } ∷ [];
  prose = codes "Hi";
}

parse_ask-found : parse_ask parse (map lower) content ≡ some (some found_block)
unfolding parse_ask parse lower trim trim_end
parse_ask-found = refl

parse_ask-IsQuestionnaire_example : IsQuestionnaire parse (map lower) found_block
parse_ask-IsQuestionnaire_example =
    parse_ask-IsQuestionnaire parse (map lower) content found_block parse_ask-found

-- An entry that is null throws.
abbrev broken : Json
broken = object (field (codes "questions") (array (item null no_item)) no_field)

questions_of-null : questions_of (λ s. some broken) body ≡ none
unfolding questions_of text_eq
questions_of-null = refl

incomplete_runs :
    (incomplete_response (codes "```py\nx = 1") ≡ true)
    × (incomplete_response (codes "```html\n</html>\n") ≡ false)
    × (incomplete_response content ≡ false)
unfolding incomplete_response
incomplete_runs = (refl, refl, refl)

continuation_runs :
    (continuation_body (codes "```py\nx\n```\nDone") ≡ codes "x")
    × (continuation_body (codes "x\n```\nDone") ≡ codes "x")
    × (continuation_body (codes "x") ≡ codes "x")
unfolding continuation_body
continuation_runs = (refl, refl, refl)

split_runs :
    (split_inline_think (codes " <Think>a </think> b")
      ≡ record { thought = codes "a"; answer = codes "b" })
    × (split_inline_think (codes "<thi") ≡ record { thought = []; answer = [] })
unfolding split_inline_think trim_start is_space trim trim_end
split_runs = (refl, refl)
