-- ===== src/Script.antt =====
-- The depth that a script ends at: `finalDepth` of dgx-portal-frontend/lib/playground-thread.ts.
-- Each inner loop over the characters is a mode; a step reads one character and looks at the next.
mod Tests
pub mod Pieces
pub mod Depth
use dgx_spark_llm_platform.Base.{
  ℕ, zero, suc, Bool, true, false, not, ◌&&◌, ◌||◌, List, [], ◌∷◌, ◌++◌, Option, none, some, any,
  take, ltb, leb, ◌==◌, if◌then◌else◌,
}
use dgx_spark_llm_platform.Base.Text.{Text, codes, text_eq, is_space, newline, starts_with}
use dgx_spark_llm_platform.Base.Int.{ℤ, pos, negsuc, inc, dec}

pub data Mode : Type 0 where
  code : Mode
  line_comment : Mode
  -- Before the second character of `/*`, inside, and before the last character of `*/`.
  block_open : Mode
  block : Mode
  block_close : Mode
  -- A string by its quote, and behind a backslash in it.
  quoted : ℕ → Bool → Mode
  template : Bool → Mode
  -- Before the brace of `${`.
  template_open : Mode
  -- A regular expression: `inClass`, and behind a backslash.
  regex : Bool → Bool → Mode

pub record State : Type 0 where
  pub mode : Mode
  pub depth : ℤ
  -- `templates`, its last element first.
  pub templates : List ℤ
  -- The last significant character, none for `""`.
  pub previous : Option ℕ
  -- The characters that are read, the last one first.
  pub behind : Text

unfoldable pub same_depth : ℤ → ℤ → Bool
same_depth (pos m) (pos n) = m == n
same_depth (negsuc m) (negsuc n) = m == n
same_depth _ _ = false

-- `beforeRegex`
unfoldable pub before_regex : Option ℕ → Bool
before_regex none = true
before_regex (some c) = any (λ d. d == c) (codes "(,=:[!&|?{};+-*%~^<>")

-- The words of `wordsBeforeRegex`, each from its end.
abbrev pub words_before : List Text
words_before =
    codes "nruter"
    ∷ codes "foepyt"
    ∷ codes "foecnatsni"
    ∷ codes "ni"
    ∷ codes "fo"
    ∷ codes "wen"
    ∷ codes "eteled"
    ∷ codes "diov"
    ∷ codes "od"
    ∷ codes "esle"
    ∷ codes "esac"
    ∷ codes "dleiy"
    ∷ codes "tiawa"
    ∷ []

-- `[\w$]`
unfoldable pub is_word : ℕ → Bool
is_word c =
    (leb b'a' c && leb c b'z')
    || (leb b'A' c && leb c b'Z')
    || (leb b'0' c && leb c b'9')
    || (c == b'_')
    || (c == b'$')

-- The word ends the text, and no character of a word stands before it; both from the end.
unfoldable pub ends_in_word : Text → Text → Bool
unfolding is_word
ends_in_word [] [] = true
ends_in_word [] (c ∷ s) = not (is_word c)
ends_in_word (d ∷ w) [] = false
ends_in_word (d ∷ w) (c ∷ s) = (d == c) && ends_in_word w s

unfoldable pub starts_regex : State → Bool
unfolding before_regex ends_in_word
starts_regex st =
    before_regex st.previous || any (λ w. ends_in_word w (take 12 st.behind)) words_before

abbrev pub opens : ℕ → Bool
opens c = (c == b'{') || (c == b'(') || (c == b'[')

abbrev pub closes : ℕ → Bool
closes c = (c == b'}') || (c == b')') || (c == b']')

-- A character that is passed: the mode behind it.
abbrev pub enter : Mode → ℕ → State → State
enter mode c st = record st { mode = mode; behind = c ∷ st.behind }

-- The end of a literal: `previous = "x"`.
abbrev pub leave : ℕ → State → State
leave c st = record st { mode = code; previous = some b'x'; behind = c ∷ st.behind }

-- `if (!/\s/.test(c)) previous = c`
unfoldable pub significant : ℕ → State → State
significant c st =
    if is_space c
    then record st { behind = c ∷ st.behind }
    else record st { previous = some c; behind = c ∷ st.behind }

-- A closer: it goes back to the template whose `${` it closes.
unfoldable pub close : ℕ → List ℤ → State → State
unfolding significant same_depth
close c [] st = significant c (record st { depth = dec st.depth })
close c (top ∷ templates) st =
    if same_depth (dec st.depth) top
    then record st {
      mode = template false;
      depth = dec st.depth;
      templates = templates;
      behind = c ∷ st.behind;
    }
    else significant c (record st { depth = dec st.depth })

abbrev pub is_next : ℕ → Option ℕ → Bool
is_next c none = false
is_next c (some d) = d == c

unfoldable pub step_code : ℕ → Option ℕ → State → State
unfolding starts_regex significant close
step_code c next st =
    if (c == b'/') && is_next b'/' next
    then enter line_comment c st
    else if (c == b'/') && is_next b'*' next
    then enter block_open c st
    else if (c == b'\'') || (c == b'"')
    then enter (quoted c false) c st
    else if c == b'`'
    then enter (template false) c st
    else if (c == b'/') && starts_regex st
    then enter (regex false false) c st
    else if opens c
    then significant c (record st { depth = inc st.depth })
    else if closes c
    then close c st.templates st
    else significant c st

unfoldable pub step_regex : Bool → ℕ → State → State
step_regex in_class c st =
    if c == b'\\'
    then enter (regex in_class true) c st
    else if c == b'['
    then enter (regex true false) c st
    else if c == b']'
    then enter (regex false false) c st
    else if ((c == b'/') && not in_class) || (c == newline)
    then leave c st
    else enter (regex in_class false) c st

unfoldable pub step_template : ℕ → Option ℕ → State → State
step_template c next st =
    if c == b'\\'
    then enter (template true) c st
    else if c == b'`'
    then leave c st
    else if (c == b'$') && is_next b'{' next
    then enter template_open c st
    else enter (template false) c st

unfoldable pub step : Mode → ℕ → Option ℕ → State → State
unfolding step_code step_regex step_template
step code c next st = step_code c next st
step line_comment c next st = if c == newline then enter code c st else enter line_comment c st
step block_open c next st = enter block c st
step block c next st =
    if (c == b'*') && is_next b'/' next then enter block_close c st else enter block c st
step block_close c next st = enter code c st
step (quoted q true) c next st = enter (quoted q false) c st
step (quoted q false) c next st =
    if c == q
    then leave c st
    else if c == b'\\'
    then enter (quoted q true) c st
    else enter (quoted q false) c st
step (template true) c next st = enter (template false) c st
step (template false) c next st = step_template c next st
step template_open c next st =
    leave c (record st { depth = inc st.depth; templates = st.depth ∷ st.templates })
step (regex in_class true) c next st = enter (regex in_class false) c st
step (regex in_class false) c next st = step_regex in_class c st

-- What is returned at the end of the text: a template that is still open counts as truncated.
unfoldable pub at_end : Mode → ℤ → ℤ
at_end (template escaped) depth = pos 1
at_end template_open depth = pos 1
at_end _ depth = depth

abbrev pub first : Text → Option ℕ
first [] = none
first (c ∷ s) = some c

unfoldable pub run : Text → State → ℤ
unfolding at_end step
run [] st = at_end st.mode st.depth
run (c ∷ s) st = run s (step st.mode c (first s) st)

unfoldable pub final_depth : Text → ℤ
unfolding run
final_depth code_text =
    run code_text
      (record { mode = code; depth = pos 0; templates = []; previous = none; behind = [] })
