-- ===== src/Ask/Bounds.antt =====
-- What a questionnaire holds that `parseAsk` finds.
use mathlib.Core.Option.{some-injective}
use mathlib.Core.Path.{subst}
use dgx_spark_llm_platform.Base.{
  ◌≤◌, List, [], ◌∷◌, Option, none, some, length, take, All, ◌≡◌, ◌≢◌, refl, arith,
}
use dgx_spark_llm_platform.Base.Text.{Text, trim}
use dgx_spark_llm_platform.Decisions.Value.{Json}
use dgx_spark_llm_platform.Ask.{Asked, AskBlock, collect, ask_block, parse_ask, before_debris}
use dgx_spark_llm_platform.Ask.Values.{AskQ, max_ask_questions}
use dgx_spark_llm_platform.Ask.Answerable.{IsAnswerable, IfSome}
use dgx_spark_llm_platform.Ask.Kept.{NoRepeat, keys, IsKept, collect-IsKept}

module _ (parse : Text → Option Json) (to_lower : Text → Text) where
  -- What a questionnaire holds.
  unfoldable pub IsQuestionnaire : AskBlock → Type 0
  IsQuestionnaire block =
      (block.questions ≢ [])
      × (length block.questions ≤ max_ask_questions)
      × All IsAnswerable block.questions
      × NoRepeat (keys parse to_lower block.questions)

  ask_block-IsQuestionnaire :
      (content : Text) (asked : Asked)
      → IsKept parse to_lower asked
      → IfSome IsQuestionnaire (ask_block parse to_lower content asked)
  unfolding ask_block IsKept IsQuestionnaire IfSome
  ask_block-IsQuestionnaire content asked kept = by_questions asked.questions refl
    where
      by_questions :
          (qs : List AskQ)
          → asked.questions ≡ qs
          → IfSome IsQuestionnaire (elim qs [
            | [] ↦ none
            | q ∷ qs ↦ some (record {
              questions = q ∷ qs;
              prose = trim (before_debris (take asked.first content));
            })
          ])
      by_questions [] e = tt
      by_questions (q ∷ qs) e =
          let (all, few, fresh, same) = kept in
          (
            ground arith,
            subst (λ l. length l ≤ max_ask_questions) e few,
            subst (All IsAnswerable) e all,
            subst (λ l. NoRepeat (keys parse to_lower l)) e fresh,
          )

  -- Whatever the answer of the model holds, a questionnaire found in it has one to twenty questions,
  -- each with a text that is not empty and with one to eight options that are not empty, and no two
  -- of them have the same text in small letters.
  pub parse_ask-IsQuestionnaire :
      (content : Text) (block : AskBlock)
      → parse_ask parse to_lower content ≡ some (some block)
      → IsQuestionnaire block
  unfolding parse_ask IfSome IsKept
  parse_ask-IsQuestionnaire content block h =
      by_asked (collect parse to_lower content) (collect-IsKept parse to_lower content) h
    where
      by_asked :
          (asked : Option Asked)
          → IfSome (IsKept parse to_lower) asked
          → (elim asked [
            | none ↦ none
            | some asked ↦ some (ask_block parse to_lower content asked)
          ])
            ≡ some (some block)
          → IsQuestionnaire block
      by_asked none kept e = ground arith
      by_asked (some asked) kept e =
          subst (IfSome IsQuestionnaire) (some-injective _ _ e)
            (ask_block-IsQuestionnaire content asked kept)
