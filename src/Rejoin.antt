-- ===== src/Rejoin.antt =====
-- Gluing a resumed answer onto the file it continues: `splitLines`, `rejoin` and `joinLine` of
-- dgx-portal-frontend/lib/playground-parsers.ts.
mod Tests
pub mod Overlap
pub mod Kept
use dgx_spark_llm_platform.Base.{
  ℕ, zero, suc, ◌+◌, ◌-◌, ◌*◌, min, Bool, true, false, not, ◌&&◌, ◌||◌, List, [], ◌∷◌, ◌++◌, Option,
  none, some, any, length, take, drop, ltb, leb, ◌==◌, if◌then◌else◌,
}
use dgx_spark_llm_platform.Base.Text.{
  Text, codes, text_eq, split, trim, trim_end, trim_start, is_blank, is_space, newline,
}

-- `REJOIN_TAIL`, `REJOIN_HEAD`, `REJOIN_MIN_LINES`, `REJOIN_MIN_CHARS` and `REJOIN_MAX_REMOVED`
abbrev pub rejoin_tail : ℕ
rejoin_tail = 6000

abbrev pub rejoin_head : ℕ
rejoin_head = 6000

abbrev pub rejoin_min_lines : ℕ
rejoin_min_lines = 3

abbrev pub rejoin_min_chars : ℕ
rejoin_min_chars = 60

abbrev pub rejoin_max_removed : ℕ
rejoin_max_removed = 2000

-- A line less its trailing space, and where it starts.
pub record Line : Type 0 where
  pub text : Text
  pub pos : ℕ

unfoldable pub place_lines : List Text → ℕ → List Line
place_lines [] pos = []
place_lines (l ∷ ls) pos =
    record { text = trim_end l; pos = pos } ∷ place_lines ls (pos + length l + 1)

unfoldable pub split_lines : Text → ℕ → List Line
unfolding place_lines
split_lines text start_pos = place_lines (split newline text) start_pos

-- The small letter of an ASCII capital, as the flag `i` compares.
unfoldable pub lower : ℕ → ℕ
lower c = if leb b'A' c && leb c b'Z' then c + 32 else c

-- The text starts with this tag, in small letters, whatever its case: what follows it.
unfoldable pub behind_tag : Text → Text → Option Text
unfolding lower
behind_tag [] s = some s
behind_tag (c ∷ p) [] = none
behind_tag (c ∷ p) (d ∷ s) = let rest = behind_tag p s in if c == lower d then rest else none

unfoldable pub is_some {ℓ} : {A : Type ℓ} → Option A → Bool
is_some none = false
is_some (some a) = true

-- `[\s>]`
unfoldable pub ends_name : Option Text → Bool
ends_name (some (c ∷ s)) = is_space c || (c == b'>')
ends_name _ = false

-- `<!DOCTYPE|<html[\s>]`, at the start
unfoldable pub opens_html : Text → Bool
unfolding behind_tag is_some ends_name
opens_html s =
    is_some (behind_tag (codes "<!doctype") s) || ends_name (behind_tag (codes "<html") s)

-- `\s*>`
unfoldable pub closes_tag : Text → Bool
closes_tag [] = false
closes_tag (c ∷ s) = let rest = closes_tag s in if is_space c then rest else c == b'>'

unfoldable pub closes_after : Option Text → Bool
closes_after none = false
closes_after (some s) = closes_tag s

-- `<\/html\s*>`, at the start
unfoldable pub closes_html : Text → Bool
unfolding behind_tag closes_after closes_tag
closes_html s = closes_after (behind_tag (codes "</html") s)

-- The pattern is found somewhere.
unfoldable pub found : (Text → Bool) → Text → Bool
found p [] = p []
found p (c ∷ s) = p (c ∷ s) || found p s

-- The continuation rewrites the whole document.
unfoldable pub replaces : Text → Text → Bool
unfolding opens_html closes_html found trim_start
replaces base continuation =
    opens_html (trim_start continuation)
    && found opens_html base
    && found closes_html continuation
    && leb (length base) (length continuation * 2)

-- The variables of the innermost loop: `k`, `charCount` and `useful`.
pub record Common : Type 0 where
  pub lines : ℕ
  pub chars : ℕ
  pub useful : ℕ

-- The lines that both lists start with.
unfoldable pub common_lines : List Line → List Line → Common
unfolding text_eq trim
common_lines [] ls = record { lines = 0; chars = 0; useful = 0 }
common_lines (b ∷ lb) [] = record { lines = 0; chars = 0; useful = 0 }
common_lines (b ∷ lb) (l ∷ ls) =
    let rest = common_lines lb ls in
    let size = length (trim b.text) in
    if text_eq b.text l.text
    then record {
      lines = rest.lines + 1;
      chars = rest.chars + size;
      useful = if leb 10 size then rest.useful + 1 else rest.useful;
    }
    else record { lines = 0; chars = 0; useful = 0 }

pub record Best : Type 0 where
  pub base : ℕ
  pub continuation : ℕ
  pub char_count : ℕ

-- `!best || charCount > best.charCount`
unfoldable pub is_better : ℕ → Option Best → Bool
is_better chars none = true
is_better chars (some best) = ltb best.char_count chars

unfoldable pub keep_best : Option Best → Line → Line → Common → Option Best
unfolding is_better
keep_best best b l c =
    if leb rejoin_min_lines c.lines
      && leb 1 c.useful
      && leb rejoin_min_chars c.chars
      && is_better c.chars best
    then some (record { base = b.pos; continuation = l.pos; char_count = c.chars })
    else best

-- The loop over the lines of the continuation.
unfoldable pub best_from : Option Best → Line → List Line → List Line → Option Best
unfolding keep_best common_lines
best_from best b lb [] = best
best_from best b lb (l ∷ ls) =
    best_from (keep_best best b l (common_lines (b ∷ lb) (l ∷ ls))) b lb ls

-- The loop over the lines of the file's end.
unfoldable pub best_match : Option Best → List Line → List Line → Option Best
unfolding best_from
best_match best [] ls = best
best_match best (b ∷ lb) ls = best_match (best_from best b lb ls) lb ls

-- `base.slice(base.lastIndexOf("\n") + 1)`
unfoldable pub last_line : Text → Text
last_line [] = []
last_line (c ∷ s) =
    let rest = last_line s in
    if any (λ d. d == newline) s then rest else if c == newline then s else c ∷ s

-- `continuation.split("\n", 1)[0]`
unfoldable pub first_line : Text → Text
first_line [] = []
first_line (c ∷ s) = let rest = first_line s in if c == newline then [] else c ∷ rest

-- `s.endsWith(p)`
unfoldable pub ends_with : Text → Text → Bool
unfolding text_eq
ends_with s p = leb (length p) (length s) && text_eq (drop (length s - length p) s) p

-- The loop of `joinLine`, from `k` down to 3: where it stops.
unfoldable pub overlap : Text → Text → ℕ → ℕ
unfolding ends_with
overlap end head zero = 0
overlap end head (suc k) =
    let rest = overlap end head k in
    if ltb (suc k) 3 then 0 else if ends_with end (take (suc k) head) then suc k else rest

unfoldable pub join_line : Text → Text → Text
unfolding last_line first_line overlap is_blank
join_line base continuation =
    let end = last_line base in
    let head = first_line continuation in
    if is_blank end
    then base ++ continuation
    else base ++ drop (overlap end head (min (length end) (length head))) continuation

-- The splice, where the match is near enough to the end.
unfoldable pub splice : Text → Text → Option Best → Text
unfolding join_line
splice base continuation none = join_line base continuation
splice base continuation (some best) =
    if leb (length base - best.base) rejoin_max_removed
    then take best.base base ++ drop best.continuation continuation
    else join_line base continuation

unfoldable pub rejoin : Text → Text → Text
unfolding replaces splice best_match split_lines
rejoin base continuation =
    let tail = drop (length base - rejoin_tail) base in
    if replaces base continuation
    then continuation
    else splice base continuation (
        best_match none (split_lines tail (length base - length tail))
          (split_lines (take rejoin_head continuation) 0))
