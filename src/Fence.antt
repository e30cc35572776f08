-- ===== src/Fence.antt =====
-- The code fences of a model's answer: `isQuestionsBlock`, `closedContent` and `openCodeFence` of
-- dgx-portal-frontend/lib/playground-parsers.ts.
mod Tests
pub mod Closed
pub mod Opened
use dgx_spark_llm_platform.Base.{
  ℕ, zero, suc, ◌+◌, ◌%◌, Bool, true, false, not, ◌&&◌, ◌||◌, List, [], ◌∷◌, ◌++◌, map, Option,
  none, some, take, drop, ltb, leb, ◌==◌, if◌then◌else◌,
}
use dgx_spark_llm_platform.Base.Text.{
  Text, codes, text_eq, trim, trim_start, is_space, newline, starts_with,
}

abbrev pub fence : Text
fence = codes "```"

-- `toLowerCase` as far as it yields a letter of `ask` and `json`: the Kelvin sign becomes `k`.
unfoldable pub lower : ℕ → ℕ
lower c = if c == 0x212a then b'k' else if leb b'A' c && leb c b'Z' then c + 32 else c

-- Behind this text, at the start: what follows it, less the spaces.
unfoldable pub skip : Text → Text → Option Text
skip [] s = some (trim_start s)
skip (c ∷ p) [] = none
skip (c ∷ p) (d ∷ s) = let rest = skip p s in if c == d then rest else none

-- A step of `RE_QUESTIONS_BODY`, behind the steps before it.
unfoldable pub skip_next : Text → Option Text → Option Text
unfolding skip trim_start
skip_next p none = none
skip_next p (some s) = skip p s

unfoldable pub is_there : Option Text → Bool
is_there none = false
is_there (some s) = true

-- `RE_QUESTIONS_BODY`
unfoldable pub is_questions_body : Text → Bool
unfolding skip_next is_there trim_start
is_questions_body body = is_there (
    skip_next (codes "[") (
      skip_next (codes ":")
        (skip_next (codes "\"questions\"") (skip_next (codes "{") (some (trim_start body))))))

unfoldable pub is_questions_block : Text → Text → Bool
unfolding lower is_questions_body text_eq
is_questions_block lang body =
    let l = map lower lang in
    text_eq l (codes "ask")
    || ((text_eq l (codes "json") || text_eq l []) && is_questions_body body)

-- The matches of the fence: the number of backquotes just before is `run`.
unfoldable pub count_from : ℕ → Text → ℕ
count_from run [] = 0
count_from run (c ∷ s) =
    let full = count_from 0 s in
    let longer = count_from (run + 1) s in
    if c == b'`' then (if run == 2 then full + 1 else longer) else full

unfoldable pub is_odd : ℕ → Bool
is_odd n = n % 2 == 1

unfoldable pub closed_content : Text → Text
unfolding count_from is_odd
closed_content content =
    if is_odd (count_from 0 content) then content ++ newline ∷ fence else content

unfoldable pub or_here : Option ℕ → Bool → Option ℕ
or_here (some at) here = some (suc at)
or_here none here = if here then some 0 else none

-- `content.lastIndexOf(fence)`
unfoldable pub last_fence : Text → Option ℕ
unfolding starts_with or_here
last_fence [] = none
last_fence (c ∷ s) = or_here (last_fence s) (starts_with fence (c ∷ s))

unfoldable pub longer : ℕ → Option (Text × Text) → Option (Text × Text)
longer c none = none
longer c (some (info, body)) = some (c ∷ info, body)

-- What stands before the first line break, and what behind it.
unfoldable pub cut_line : Text → Option (Text × Text)
unfolding longer
cut_line [] = none
cut_line (c ∷ s) = let rest = cut_line s in if c == newline then some ([], s) else longer c rest

-- `info.split(/\s+/)[0]`, of a trimmed text
unfoldable pub first_word : Text → Text
unfolding is_space
first_word [] = []
first_word (c ∷ s) = let rest = first_word s in if is_space c then [] else c ∷ rest

pub record OpenFence : Type 0 where
  pub lang : Text
  pub body : Text
  pub start : ℕ

-- `first || "text"`
unfoldable pub or_text : Text → Text
or_text [] = codes "text"
or_text (c ∷ s) = c ∷ s

-- What is returned once the information line is read.
unfoldable pub open_at : ℕ → Option (Text × Text) → Option OpenFence
unfolding is_questions_block first_word or_text trim
open_at start none = none
open_at start (some (info, body)) =
    let first = first_word (trim info) in
    if is_questions_block first body
    then none
    else some (record { lang = or_text first; body = body; start = start })

unfoldable pub open_from : Text → Option ℕ → Option OpenFence
unfolding open_at cut_line
open_from content none = none
open_from content (some start) = open_at start (cut_line (drop (start + 3) content))

unfoldable pub open_code_fence : Text → Option OpenFence
unfolding open_from count_from is_odd last_fence
open_code_fence content =
    if is_odd (count_from 0 content) then open_from content (last_fence content) else none
