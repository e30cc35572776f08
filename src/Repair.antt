-- ===== src/Repair.antt =====
-- The repair of JSON that a model wrote: `repairClosings`, `balanceJson`, `escapeRawControlChars`,
-- `firstJsonValue` and `objectEnd` of dgx-portal-frontend/lib/playground-parsers.ts. The loops
-- over code points go over code units here: all that they test for is in ASCII.
pub mod Check
pub mod Closings
pub mod Commas
pub mod Result
pub mod Balance
pub mod Escape
pub mod Value
mod Tests
use dgx_spark_llm_platform.Base.{
  ℕ, zero, suc, ◌+◌, Bool, true, false, not, ◌&&◌, ◌||◌, List, [], ◌∷◌, ◌++◌, Option, none, some,
  any, drop, take, ◌==◌, if◌then◌else◌,
}
use dgx_spark_llm_platform.Base.Int.{ℤ, pos, inc, dec, is_zero}
use dgx_spark_llm_platform.Base.Text.{Text, is_space, is_blank}

abbrev pub quote : ℕ
quote = b'"'

abbrev pub backslash : ℕ
backslash = b'\\'

abbrev pub comma : ℕ
comma = b','

-- The two flags that each loop keeps.
pub record Scan : Type 0 where
  pub in_string : Bool
  pub escaped : Bool

abbrev pub outside : Scan
outside = record { in_string = false; escaped = false }

-- How each loop moves its flags at one character.
unfoldable pub scan_flags : Bool → Bool → ℕ → Scan
scan_flags true true c = record { in_string = true; escaped = false }
scan_flags true false c =
    if c == backslash
    then record { in_string = true; escaped = true }
    else record { in_string = not (c == quote); escaped = false }
scan_flags false e c = record { in_string = c == quote; escaped = e }

abbrev pub scan : Scan → ℕ → Scan
scan st c = scan_flags st.in_string st.escaped c

abbrev pub is_opener : ℕ → Bool
is_opener c = (c == b'{') || (c == b'[')

abbrev pub is_closer : ℕ → Bool
is_closer c = (c == b'}') || (c == b']')

-- `ch === "{" ? "}" : "]"`
abbrev pub closer_of : ℕ → ℕ
closer_of c = if c == b'{' then b'}' else b']'

-- `while (stack.length && top !== ch) out += stack.pop(); out += stack.pop();` on a stack that
-- holds `ch`: what is written, and the stack left. The top of the stack is the head of the list.
unfoldable pub close_to : ℕ → List ℕ → Text × List ℕ
close_to c [] = ([], [])
close_to c (top ∷ stack) =
    let rest = close_to c stack in if top == c then (top ∷ [], stack) else (top ∷ rest.0, rest.1)

-- One round of `repairClosings`: what is written, and the stack left.
unfoldable pub repair_round : Bool → List ℕ → ℕ → Text × List ℕ
repair_round true stack c = (c ∷ [], stack)
repair_round false stack c =
    if c == quote
    then (c ∷ [], stack)
    else if is_opener c
    then (c ∷ [], closer_of c ∷ stack)
    else if is_closer c
    then (if not (any (λ d. d == c) stack) then ([], stack) else close_to c stack)
    else (c ∷ [], stack)

-- The loop of `repairClosings`, and what is written behind it.
unfoldable pub repair_from : Scan → List ℕ → Text → Text
unfolding repair_round close_to scan_flags
repair_from st stack [] = if st.in_string then quote ∷ stack else stack
repair_from st stack (c ∷ src) =
    let round = repair_round st.in_string stack c in
    round.0 ++ repair_from (scan st c) (round.1) src

-- `/^\s*[}\]]/`
unfoldable pub closes_next : Text → Bool
closes_next [] = false
closes_next (c ∷ s) = let rest = closes_next s in if is_space c then rest else is_closer c

-- `.replace(/,\s*([}\]])/g, "$1")`; the flag is true inside a match, behind its comma.
unfoldable pub drop_commas : Bool → Text → Text
drop_commas skipping [] = []
drop_commas skipping (c ∷ s) =
    let inside = skipping && is_space c in
    let dropped = (c == comma) && closes_next s in
    let rest = drop_commas (inside || dropped) s in if inside || dropped then rest else c ∷ rest

unfoldable pub repair_closings : Text → Text
unfolding repair_from drop_commas closes_next is_space
repair_closings src = drop_commas false (repair_from outside [] src)

-- `.replace(/,\s*$/, "")`
unfoldable pub trim_comma : Text → Text
trim_comma [] = []
trim_comma (c ∷ s) = let rest = trim_comma s in if (c == comma) && is_blank s then [] else c ∷ rest

-- The loop of `balanceJson`: the flags and the stack of openers at the end.
unfoldable pub pop {ℓ} : {A : Type ℓ} → List A → List A
pop [] = []
pop (x ∷ xs) = xs

unfoldable pub balance_round : Bool → List ℕ → ℕ → List ℕ
balance_round true stack c = stack
balance_round false stack c =
    if c == quote
    then stack
    else if is_opener c
    then c ∷ stack
    else if is_closer c
    then pop stack
    else stack

unfoldable pub balance_scan : Scan → List ℕ → Text → Scan × List ℕ
unfolding balance_round scan_flags pop
balance_scan st stack [] = (st, stack)
balance_scan st stack (c ∷ src) = balance_scan (scan st c) (balance_round st.in_string stack c) src

-- `while (stack.length) out += stack.pop() === "{" ? "}" : "]"`
unfoldable pub close_all : List ℕ → Text
close_all [] = []
close_all (c ∷ stack) = closer_of c ∷ close_all stack

unfoldable pub balance_json : Text → Text
unfolding balance_scan trim_comma close_all is_blank is_space
balance_json src =
    let (st, stack) = balance_scan outside [] src in
    trim_comma src ++ ((if st.in_string then quote ∷ [] else []) ++ close_all stack)

-- What one round of `escapeRawControlChars` writes.
unfoldable pub escape_piece : Bool → Bool → ℕ → Text
escape_piece true false c =
    if c == b'\n'
    then backslash ∷ b'n' ∷ []
    else if c == b'\r'
    then backslash ∷ b'r' ∷ []
    else if c == b'\t'
    then backslash ∷ b't' ∷ []
    else c ∷ []
escape_piece _ _ c = c ∷ []

unfoldable pub escape_from : Scan → Text → Text
unfolding escape_piece scan_flags
escape_from st [] = []
escape_from st (c ∷ src) = escape_piece st.in_string st.escaped c ++ escape_from (scan st c) src

unfoldable pub escape_raw_control_chars : Text → Text
unfolding escape_from
escape_raw_control_chars src = escape_from outside src

-- The loop of `firstJsonValue`, from the first opener on: how many characters the value has. The
-- flag says that the depth has come back to zero.
unfoldable pub depth_round : Bool → ℤ → ℕ → ℤ × Bool
depth_round true depth c = (depth, false)
depth_round false depth c =
    if c == quote
    then (depth, false)
    else if is_opener c
    then (inc depth, false)
    else if is_closer c
    then (dec depth, is_zero (dec depth))
    else (depth, false)

unfoldable pub value_length : Scan → ℤ → Text → Option ℕ
unfolding depth_round scan_flags
value_length st depth [] = none
value_length st depth (c ∷ src) =
    let round = depth_round st.in_string depth c in
    let rest = value_length (scan st c) (round.0) src in
    if round.1 then some 1 else elim rest [ none ↦ none | some n ↦ some (suc n) ]

-- `src.search(/[{[]/)`
unfoldable pub find_opener : Text → Option ℕ
find_opener [] = none
find_opener (c ∷ src) =
    let rest = find_opener src in
    if is_opener c then some 0 else elim rest [ none ↦ none | some n ↦ some (suc n) ]

unfoldable pub first_json_value : Text → Option Text
unfolding value_length find_opener
first_json_value src = elim (find_opener src) [
  | none ↦ none
  | some start ↦ elim (value_length outside (pos 0) (drop start src)) [
    | none ↦ none
    | some n ↦ some (take n (drop start src))
  ]
]

-- `objectEnd(src, start)` from index `start` on: how many characters further the object ends. It
-- counts braces only.
unfoldable pub brace_round : Bool → ℤ → ℕ → ℤ × Bool
brace_round true depth c = (depth, false)
brace_round false depth c =
    if c == quote
    then (depth, false)
    else if c == b'{'
    then (inc depth, false)
    else if c == b'}'
    then (dec depth, is_zero (dec depth))
    else (depth, false)

unfoldable pub object_length : Scan → ℤ → Text → Option ℕ
unfolding brace_round scan_flags
object_length st depth [] = none
object_length st depth (c ∷ src) =
    let round = brace_round st.in_string depth c in
    let rest = object_length (scan st c) (round.0) src in
    if round.1 then some 1 else elim rest [ none ↦ none | some n ↦ some (suc n) ]

unfoldable pub object_end : Text → ℕ → Option ℕ
unfolding object_length
object_end src start = elim (object_length outside (pos 0) (drop start src)) [
  | none ↦ none
  | some n ↦ some (start + n)
]
