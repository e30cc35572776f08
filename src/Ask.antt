-- ===== src/Ask.antt =====
-- The questions and the files of a model's answer: `questionCandidates`, `fileBounds`,
-- `containsQuestions`, `incompleteResponse`, `parseAsk`, `continuationBody` and `splitInlineThink`
-- of dgx-portal-frontend/lib/playground-parsers.ts. Ask/Blocks.antt holds the matching of blocks and
-- Ask/Values.antt the values inside. `JSON.parse` and `toLowerCase` are parameters.
pub mod Blocks
pub mod Values
mod Tests
pub mod Answerable
pub mod Kept
pub mod Bounds
pub mod Continued
use dgx_spark_llm_platform.Base.{
  ℕ, zero, suc, ◌+◌, ◌-◌, min, Bool, true, false, not, ◌&&◌, ◌||◌, List, [], ◌∷◌, ◌++◌, Option,
  none, some, length, take, drop, slice, any, leb, ◌==◌, if◌then◌else◌,
}
use dgx_spark_llm_platform.Base.Text.{
  Text, codes, text_eq, trim, trim_start, trim_end, is_blank, is_space, newline, starts_with,
}
use dgx_spark_llm_platform.Repair.{object_end}
use dgx_spark_llm_platform.Decisions.Value.{Json}
use dgx_spark_llm_platform.Fence.{fence, open_code_fence, OpenFence, cut_line}
use dgx_spark_llm_platform.Rejoin.{behind_tag, found, closes_html, opens_html, is_some, ends_name}
use dgx_spark_llm_platform.Ask.Blocks.{
  Block, Head, up_to_fence, blocks, block_length, file_bounds, file_head, ask_head, json_head,
  bare_head,
}
use dgx_spark_llm_platform.Ask.Values.{AskQ, max_ask_questions, questions_of, is_filled}

-- Behind the white space, this text, in any case: what follows it.
unfoldable pub behind : Text → Option Text → Option Text
unfolding behind_tag trim_start
behind p none = none
behind p (some s) = behind_tag p (trim_start s)

unfoldable pub drop_plural : Option Text → Option Text
drop_plural none = none
drop_plural (some []) = some []
drop_plural (some (c ∷ s)) = if (c == b's') || (c == b'S') then some s else some (c ∷ s)

-- The pattern of `questionCandidates`, at the start.
unfoldable pub is_candidate : Text → Bool
unfolding behind drop_plural is_some behind_tag trim_start
is_candidate s = is_some (
    behind (codes ":")
      (quoted (drop_plural (behind (codes "\"question") (behind_tag (codes "{") s)))))
  where
    quoted : Option Text → Option Text
    quoted none = none
    quoted (some s) = behind_tag (codes "\"") s

pub record Candidate : Type 0 where
  pub text : Text
  pub start : ℕ
  pub end : ℕ

unfoldable pub end_or_length : Text → Option ℕ → ℕ
end_or_length src none = length src
end_or_length src (some end) = end

unfoldable pub candidate_at : Text → ℕ → Candidate
unfolding object_end end_or_length
candidate_at src start =
    let end = end_or_length src (object_end src start) in
    record { text = slice start end src; start = start; end = end }

-- The search from this place on, where this text is what is left of `src`.
unfoldable pub candidates_from : Text → ℕ → Text → List Candidate
unfolding is_candidate candidate_at
candidates_from src at [] = []
candidates_from src at (c ∷ s) =
    let rest = candidates_from src (suc at) s in
    if is_candidate (c ∷ s) then candidate_at src at ∷ rest else rest

unfoldable pub question_candidates : Text → List Candidate
unfolding candidates_from
question_candidates src = candidates_from src 0 src

-- `files.some(([d, f]) => start >= d && end <= f)`
unfoldable pub is_within : List (ℕ × ℕ) → ℕ → ℕ → Bool
is_within [] start end = false
is_within ((d, f) ∷ files) start end = (leb d start && leb end f) || is_within files start end

unfoldable pub contains_questions : Text → Bool
unfolding question_candidates file_bounds is_within
contains_questions content =
    any (λ c. not (is_within (file_bounds content) c.start c.end)) (question_candidates content)

-- `<\/html\s*>\s*$`, at the start
unfoldable pub ends_html : Text → Bool
unfolding behind is_blank behind_tag
ends_html s = only_blank (behind (codes ">") (behind_tag (codes "</html") s))
  where
    only_blank : Option Text → Bool
    only_blank none = false
    only_blank (some rest) = is_blank rest

-- `<!DOCTYPE html|<html[\s>]`, at the start
unfoldable pub opens_document : Text → Bool
unfolding behind_tag is_some ends_name
opens_document s =
    is_some (behind_tag (codes "<!doctype html") s) || ends_name (behind_tag (codes "<html") s)

unfoldable pub incomplete_response : Text → Bool
unfolding contains_questions open_code_fence ends_html opens_document closes_html found trim_end
incomplete_response content =
    if contains_questions content then false else elim (open_code_fence content) [
      | some left ↦ not (found ends_html (trim_end left.body))
      | none ↦ found opens_document content && not (found closes_html content)
    ]

-- What `parseAsk` collects: the questions, their keys, and where the first of them starts.
pub record Asked : Type 0 where
  pub questions : List AskQ
  pub seen : List Text
  pub first : ℕ

pub record AskBlock : Type 0 where
  pub questions : List AskQ
  pub prose : Text

unfoldable pub is_seen : Text → List Text → Bool
unfolding text_eq
is_seen key [] = false
is_seen key (k ∷ seen) = text_eq key k || is_seen key seen

-- The place where the prose before the questions breaks off.
unfoldable pub is_debris : Text → Bool
unfolding starts_with trim_start
is_debris [] = false
is_debris (c ∷ s) =
    (((c == b'[') || (c == b'{')) && starts_with (codes "\"") (trim_start s))
    || starts_with fence (c ∷ s)

unfoldable pub before_debris : Text → Text
unfolding is_debris
before_debris [] = []
before_debris (c ∷ s) = let rest = before_debris s in if is_debris (c ∷ s) then [] else c ∷ rest

module _ (parse : Text → Option Json) (to_lower : Text → Text) where
  -- The questions of one candidate, each kept once and no more of them than the bound.
  unfoldable pub keep_questions : List AskQ → Asked → Asked
  unfolding is_seen
  keep_questions [] asked = asked
  keep_questions (q ∷ qs) asked =
      let key = to_lower q.question in
      keep_questions qs (
        if is_seen key asked.seen || leb max_ask_questions (length asked.questions)
        then asked
        else record asked { questions = asked.questions ++ q ∷ []; seen = key ∷ asked.seen })

  unfoldable pub keep_read : Option (List AskQ) → Asked → Option Asked
  unfolding keep_questions
  keep_read none asked = none
  keep_read (some qs) asked = some (keep_questions qs asked)

  unfoldable pub keep_candidate : List (ℕ × ℕ) → ℕ → Candidate → Asked → Option Asked
  unfolding is_within keep_read questions_of
  keep_candidate files offset c asked =
      let start = offset + c.start in
      if is_within files start (offset + c.end)
      then some asked
      else keep_read (questions_of parse c.text) (record asked { first = min asked.first start })

  -- `collected`: none where a value throws.
  unfoldable pub keep_candidates : List (ℕ × ℕ) → ℕ → List Candidate → Option Asked → Option Asked
  unfolding keep_candidate
  keep_candidates files offset cs none = none
  keep_candidates files offset [] (some asked) = some asked
  keep_candidates files offset (c ∷ cs) (some asked) =
      keep_candidates files offset cs (keep_candidate files offset c asked)

  unfoldable pub at_block : Block → Option Asked → Option Asked
  at_block b none = none
  at_block b (some asked) = some (record asked { first = min asked.first b.start })

  -- The loop over the blocks of one pattern. The offset is the source's: the length of the match
  -- less that of the body, the fence that closes the block included.
  unfoldable pub keep_blocks : List (ℕ × ℕ) → List Block → Option Asked → Option Asked
  unfolding keep_candidates question_candidates block_length at_block
  keep_blocks files [] asked = asked
  keep_blocks files (b ∷ bs) asked = keep_blocks files bs (
      keep_candidates files (b.start + (block_length b - length b.body))
        (question_candidates b.body) (at_block b asked))

  unfoldable pub collect : Text → Option Asked
  unfolding keep_blocks blocks ask_head json_head bare_head file_bounds
  collect content =
      let files = file_bounds content in
      keep_candidates files 0 (question_candidates content) (
        keep_blocks files (blocks bare_head content) (
          keep_blocks files (blocks json_head content) (
            keep_blocks files (blocks ask_head content)
              (some (record { questions = []; seen = []; first = length content })))))

  unfoldable pub ask_block : Text → Asked → Option AskBlock
  unfolding before_debris
  ask_block content asked = elim asked.questions [
    | [] ↦ none
    | q ∷ qs ↦
        some
          (record { questions = q ∷ qs; prose = trim (before_debris (take asked.first content)) })
  ]

  -- `parseAsk`: none where it throws, and none inside where it finds no question.
  unfoldable pub parse_ask : Text → Option (Option AskBlock)
  unfolding collect ask_block
  parse_ask content = elim (collect content) [
    | none ↦ none
    | some asked ↦ some (ask_block content asked)
  ]
