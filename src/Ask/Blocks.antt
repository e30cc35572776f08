-- ===== src/Ask/Blocks.antt =====
-- The blocks of an answer, as the regular expressions of
-- dgx-portal-frontend/lib/playground-parsers.ts match them: a head, then the shortest body up to
-- the next fence or the end.
use dgx_spark_llm_platform.Base.{
  ℕ, zero, suc, ◌+◌, ◌-◌, Bool, true, false, not, ◌&&◌, ◌||◌, List, [], ◌∷◌, map, Option, none,
  some, length, drop, leb, ◌==◌, if◌then◌else◌,
}
use dgx_spark_llm_platform.Base.Text.{Text, codes, newline, starts_with}
use dgx_spark_llm_platform.Fence.{fence, is_questions_body, is_questions_block}
use dgx_spark_llm_platform.Rejoin.{lower, behind_tag}

-- A match: where it starts, the length of its head, its language, its body, and whether a fence
-- ends it.
pub record Block : Type 0 where
  pub start : ℕ
  pub head : ℕ
  pub lang : Text
  pub body : Text
  pub closed : Bool

-- `m[0].length`
unfoldable pub block_length : Block → ℕ
block_length b = b.head + length b.body + (if b.closed then 3 else 0)

unfoldable pub put_before : ℕ → Text × Bool → Text × Bool
put_before c (body, closed) = (c ∷ body, closed)

-- `([\s\S]*?)(?:```|$)`: the body, and whether a fence follows it.
unfoldable pub up_to_fence : Text → Text × Bool
unfolding put_before starts_with
up_to_fence [] = ([], false)
up_to_fence (c ∷ s) =
    let rest = up_to_fence s in if starts_with fence (c ∷ s) then ([], true) else put_before c rest

-- `[ \t]*`
unfoldable pub skip_blanks : Text → Text
skip_blanks [] = []
skip_blanks (c ∷ s) =
    let rest = skip_blanks s in if (c == b' ') || (c == b'\t') then rest else c ∷ s

-- A line break at the start: what follows it.
unfoldable pub behind_break : Text → Option Text
behind_break [] = none
behind_break (c ∷ s) = if c == newline then some s else none

-- `[\w+-]`
unfoldable pub is_label : ℕ → Bool
is_label c =
    (leb b'a' c && leb c b'z')
    || (leb b'A' c && leb c b'Z')
    || (leb b'0' c && leb c b'9')
    || (c == b'_')
    || (c == b'+')
    || (c == b'-')

unfoldable pub label_of : Text → Text
unfolding is_label
label_of [] = []
label_of (c ∷ s) = let rest = label_of s in if is_label c then c ∷ rest else []

-- A head that matches at the start: its language, and what follows it.
abbrev pub Head : Type 0
Head = Bool → Text → Option (Text × Text)

unfoldable pub with_lang : Text → Option Text → Option (Text × Text)
with_lang lang none = none
with_lang lang (some s) = some (lang, s)

-- "```([\w+-]*)[ \t]*\n" of `fileBounds`
unfoldable pub file_head : Head
unfolding label_of skip_blanks behind_break with_lang starts_with
file_head at_start s =
    let rest = drop 3 s in
    let lang = label_of rest in
    if starts_with fence s
    then with_lang lang (behind_break (skip_blanks (drop (length lang) rest)))
    else none

unfoldable pub behind_line : Option Text → Option (Text × Text)
unfolding skip_blanks behind_break with_lang
behind_line none = none
behind_line (some s) = with_lang [] (behind_break (skip_blanks s))

-- "```ask[ \t]*\n", in any case
unfoldable pub ask_head : Head
unfolding behind_line behind_tag
ask_head at_start s = behind_line (behind_tag (codes "```ask") s)

-- The body starts like a questionnaire.
unfoldable pub if_questions : Bool → Option (Text × Text) → Option (Text × Text)
unfolding is_questions_body lower
if_questions any_case none = none
if_questions any_case (some (lang, s)) =
    if is_questions_body (if any_case then map lower s else s) then some (lang, s) else none

unfoldable pub or_at : Option Text → Option Text → Option Text
or_at (some s) other = some s
or_at none other = other

unfoldable pub strip : Text → Text → Option Text
unfolding starts_with
strip p s = if starts_with p s then some (drop (length p) s) else none

-- "```(?:json)?[ \t]*\n" and a questionnaire
unfoldable pub json_head : Head
unfolding behind_line if_questions or_at strip
json_head at_start s =
    if_questions false (behind_line (or_at (strip (codes "```json") s) (strip fence s)))

-- A character that need not be there.
unfoldable pub skip_tick : Text → Text
skip_tick [] = []
skip_tick (c ∷ s) = if c == b'`' then s else c ∷ s

unfoldable pub bare_line : Text → Option (Text × Text)
unfolding behind_line if_questions skip_blanks skip_tick behind_tag
bare_line s =
    if_questions true (behind_line (ticked (behind_tag (codes "ask") (skip_tick (skip_blanks s)))))
  where
    ticked : Option Text → Option Text
    ticked none = none
    ticked (some s) = some (skip_tick s)

unfoldable pub or_head : Option (Text × Text) → Option (Text × Text) → Option (Text × Text)
or_head (some h) other = some h
or_head none other = other

-- "(?:^|\n)[ \t]*`?ask`?[ \t]*\n" and a questionnaire, in any case
unfoldable pub bare_head : Head
unfolding bare_line or_head
bare_head at_start [] = none
bare_head at_start (c ∷ s) =
    or_head (if at_start then bare_line (c ∷ s) else none)
      (if c == newline then bare_line s else none)

-- The match at a place, of a head that ends before this text.
unfoldable pub block_at : ℕ → Text → Option (Text × Text) → Option Block
unfolding up_to_fence
block_at start s none = none
block_at start s (some (lang, rest)) =
    let (body, closed) = up_to_fence rest in
    some (record {
      start = start;
      head = length s - length rest;
      lang = lang;
      body = body;
      closed = closed;
    })

unfoldable pub and_on : Option Block → (ℕ → List Block) → List Block
unfolding block_length
and_on none go = go 0
and_on (some b) go = b ∷ go (block_length b - 1)

-- `content.matchAll(…)`: from this place on, behind what the match before still covers.
unfoldable pub blocks_from : Head → ℕ → ℕ → Text → List Block
unfolding block_at and_on
blocks_from head at covered [] = []
blocks_from head at (suc covered) (c ∷ s) = blocks_from head (suc at) covered s
blocks_from head at zero (c ∷ s) =
    and_on (block_at at (c ∷ s) (head (at == 0) (c ∷ s))) (λ n. blocks_from head (suc at) n s)

unfoldable pub blocks : Head → Text → List Block
unfolding blocks_from
blocks head content = blocks_from head 0 0 content

-- The blocks that `fileBounds` keeps: not a questionnaire, and not a mark without a language that
-- nothing closes.
unfoldable pub is_file : Block → Bool
unfolding is_questions_block
is_file b =
    if is_questions_block b.lang b.body then false else not (leb (length b.lang) 0 && not b.closed)

unfoldable pub bounds_of : List Block → List (ℕ × ℕ)
unfolding is_file block_length
bounds_of [] = []
bounds_of (b ∷ bs) =
    let rest = bounds_of bs in
    if is_file b then (b.start, b.start + block_length b) ∷ rest else rest

unfoldable pub file_bounds : Text → List (ℕ × ℕ)
unfolding bounds_of blocks file_head
file_bounds content = bounds_of (blocks file_head content)
