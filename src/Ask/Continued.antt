-- ===== src/Ask/Continued.antt =====
-- The text of an answer without what surrounds it: `continuationBody` and `splitInlineThink` of
-- dgx-portal-frontend/lib/playground-parsers.ts.
use dgx_spark_llm_platform.Base.{
  Bool, true, false, ◌&&◌, [], ◌∷◌, Option, none, some, length, drop, leb, ◌==◌, if◌then◌else◌,
}
use dgx_spark_llm_platform.Base.Text.{Text, codes, trim, trim_start, newline, starts_with}
use dgx_spark_llm_platform.Fence.{fence, open_code_fence, OpenFence}
use dgx_spark_llm_platform.Rejoin.{behind_tag, is_some, lower}
use dgx_spark_llm_platform.Ask.Blocks.{up_to_fence}

-- "[^\n`]*\n": what follows the line.
unfoldable pub behind_info : Text → Option Text
behind_info [] = none
behind_info (c ∷ s) =
    let rest = behind_info s in if c == newline then some s else if c == b'`' then none else rest

unfoldable pub if_closed : Text × Bool → Option Text
if_closed (body, closed) = if closed then some body else none

-- The body of a block that opens at the start and is closed.
unfoldable pub closed_at : Text → Option Text
unfolding behind_info if_closed up_to_fence starts_with
closed_at s =
    if starts_with fence s
    then elim (behind_info (drop 3 s)) [ none ↦ none | some rest ↦ if_closed (up_to_fence rest) ]
    else none

unfoldable pub or_next : Option Text → Option Text → Option Text
or_next (some body) next = some body
or_next none next = next

unfoldable pub first_closed : Text → Option Text
unfolding closed_at or_next
first_closed [] = none
first_closed (c ∷ s) = or_next (closed_at (c ∷ s)) (first_closed s)

-- `.replace(/\n$/, "")`
unfoldable pub strip_break : Text → Text
strip_break [] = []
strip_break (c ∷ []) = if c == newline then [] else c ∷ []
strip_break (c ∷ d ∷ s) = c ∷ strip_break (d ∷ s)

-- What stands before the first fence, where there is one.
unfoldable pub before_fence : Text → Option Text
unfolding starts_with
before_fence [] = none
before_fence (c ∷ s) = longer (before_fence s) (starts_with fence (c ∷ s))
  where
    longer : Option Text → Bool → Option Text
    longer rest true = some []
    longer none false = none
    longer (some before) false = some (c ∷ before)

-- "^\s*```[^\n`]*\n"
unfoldable pub opens_block : Text → Bool
unfolding behind_info is_some starts_with trim_start
opens_block content =
    let s = trim_start content in starts_with fence s && is_some (behind_info (drop 3 s))

unfoldable pub body_or : Text → Option OpenFence → Text
body_or content none = content
body_or content (some left) = left.body

unfoldable pub unclosed_body : Text → Option Text → Text
unfolding body_or opens_block open_code_fence strip_break
unclosed_body content none = content
unclosed_body content (some before) =
    if opens_block content then body_or content (open_code_fence content) else strip_break before

unfoldable pub continuation_body : Text → Text
unfolding first_closed strip_break unclosed_body before_fence
continuation_body content = elim (first_closed content) [
  | some body ↦ strip_break body
  | none ↦ unclosed_body content (before_fence content)
]

-- The thought and the answer.
pub record Split : Type 0 where
  pub thought : Text
  pub answer : Text

-- `^<t(?:h(?:i(?:n(?:k)?)?)?)?$`, in any case
unfoldable pub is_cut_tag : Text → Bool
unfolding lower
is_cut_tag head = leb 2 (length head) && is_start head (codes "<think")
  where
    is_start : Text → Text → Bool
    is_start [] tag = true
    is_start (c ∷ s) [] = false
    is_start (c ∷ s) (d ∷ tag) = (lower c == d) && is_start s tag

-- The text before the closing tag and behind it.
unfoldable pub cut_thought : Text → Option (Text × Text)
unfolding behind_tag
cut_thought [] = none
cut_thought (c ∷ s) = at (cut_thought s) (behind_tag (codes "</think>") (c ∷ s))
  where
    at : Option (Text × Text) → Option Text → Option (Text × Text)
    at later (some rest) = some ([], rest)
    at none none = none
    at (some (thought, rest)) none = some (c ∷ thought, rest)

unfoldable pub split_thought : Option (Text × Text) → Text → Split
split_thought none body = record { thought = trim body; answer = [] }
split_thought (some (thought, rest)) body = record {
  thought = trim thought;
  answer = trim_start rest;
}

unfoldable pub split_inline_think : Text → Split
unfolding is_cut_tag cut_thought split_thought behind_tag
split_inline_think raw =
    let head = trim_start raw in
    elim (behind_tag (codes "<think>") head) [
      | none ↦
          if is_cut_tag head
          then record { thought = []; answer = [] }
          else record { thought = []; answer = raw }
      | some body ↦ split_thought (cut_thought body) body
    ]
