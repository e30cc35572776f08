-- ===== src/Export/Escape.antt =====
-- What `escapeHtml` leaves out of a text, and that the text is read back.
use dgx_spark_llm_platform.Base.{
  ℕ, false, [], ◌∷◌, ◌++◌, ◌==◌, if◌then◌else◌, ◌≡◌, ◌≢◌, refl, sym, ap, ◌∙◌, arith, Option, none,
  some, All, All-append, Bool-cases, inl, inr, append_assoc,
}
use mathlib.Core.Path.{ap₂, subst}
use dgx_spark_llm_platform.Base.Text.{Text, codes, text_eq}
use dgx_spark_llm_platform.Export.{replace_all, escape_html}

-- The escape of one character.
abbrev pub escape_char : ℕ → Text
escape_char c =
    if c == b'&'
    then codes "&amp;"
    else if c == b'<'
    then codes "&lt;"
    else if c == b'>'
    then codes "&gt;"
    else if c == b'"'
    then codes "&quot;"
    else c ∷ []

abbrev pub escape_chars : Text → Text
escape_chars [] = []
escape_chars (c ∷ v) = escape_char c ++ escape_chars v

replace_all-append :
    (c : ℕ) (by v w : Text) → replace_all c by (v ++ w) ≡ replace_all c by v ++ replace_all c by w
unfolding replace_all
replace_all-append c by [] w = refl
replace_all-append c by (d ∷ v) w =
    ground (
      arith,
      replace_all-append c by v w,
      append_assoc by (replace_all c by v) (replace_all c by w),
    )

escape_html-append : (v w : Text) → escape_html (v ++ w) ≡ escape_html v ++ escape_html w
unfolding escape_html
escape_html-append v w =
    rw (replace_all-append, replace_all-append, replace_all-append, replace_all-append) refl

-- One of the four characters, or another one.
abbrev IsOther : ℕ → Type 0
IsOther c =
    ((c == b'&') ≡ false) × ((c == b'<') ≡ false) × ((c == b'>') ≡ false) × ((c == b'"') ≡ false)

char_cases : (P : ℕ → Type 0) (c : ℕ) → P b'&' → P b'<' → P b'>' → P b'"' → (IsOther c → P c) → P c
char_cases P c amp lt gt quot other = elim (Bool-cases (c == b'&')) [
  | inl e ↦ subst P (sym (ground arith)) amp
  | inr e ↦ elim (Bool-cases (c == b'<')) [
    | inl f ↦ subst P (sym (ground arith)) lt
    | inr f ↦ elim (Bool-cases (c == b'>')) [
      | inl g ↦ subst P (sym (ground arith)) gt
      | inr g ↦ elim (Bool-cases (c == b'"')) [
        | inl h ↦ subst P (sym (ground arith)) quot
        | inr h ↦ other (e, f, g, h)
      ]
    ]
  ]
]

escape_html_one : (c : ℕ) → escape_html (c ∷ []) ≡ escape_char c
unfolding escape_html replace_all
escape_html_one c =
    char_cases (λ d. escape_html (d ∷ []) ≡ escape_char d) c refl refl refl refl
      (λ (e, f, g, h). ground arith)

pub escape_html_lem : (v : Text) → escape_html v ≡ escape_chars v
escape_html_lem [] = unfold escape_html replace_all in refl
escape_html_lem (c ∷ v) =
    escape_html-append (c ∷ []) v ∙ ap₂ ◌++◌ (escape_html_one c) (escape_html_lem v)

-- Neither an angle bracket nor a double quote.
abbrev pub IsInert : ℕ → Type 0
IsInert c = (c ≢ b'<') × (c ≢ b'>') × (c ≢ b'"')

-- The character that an entity of a given name stands for.
abbrev entity : Text → Text
entity name =
    if text_eq name (codes "amp")
    then b'&' ∷ []
    else if text_eq name (codes "lt")
    then b'<' ∷ []
    else if text_eq name (codes "gt")
    then b'>' ∷ []
    else if text_eq name (codes "quot")
    then b'"' ∷ []
    else b'&' ∷ (name ++ b';' ∷ [])

-- How a reader of HTML takes a text with the four entities; behind a `&`, the name so far.
unfoldable pub unescape : Option Text → Text → Text
unescape none [] = []
unescape (some name) [] = b'&' ∷ name
unescape none (c ∷ v) =
    let plain = unescape none v in
    let opened = unescape (some []) v in if c == b'&' then opened else c ∷ plain
unescape (some name) (c ∷ v) =
    let closed = unescape none v in
    let longer = unescape (some (name ++ c ∷ [])) v in
    if c == b';' then entity name ++ closed else longer

unescape-escape_char : (c : ℕ) (v : Text) → unescape none (escape_char c ++ v) ≡ c ∷ unescape none v
unfolding unescape text_eq
unescape-escape_char c v =
    char_cases (λ d. unescape none (escape_char d ++ v) ≡ d ∷ unescape none v) c refl refl refl refl
      (λ (e, f, g, h). ground arith)

escape_char-IsInert : (c : ℕ) → All IsInert (escape_char c)
escape_char-IsInert c =
    char_cases (λ d. All IsInert (escape_char d)) c (ground arith) (ground arith) (ground arith)
      (ground arith)
      (λ (e, f, g, h). rw (e, f, g, h) ((ground arith, ground arith, ground arith), tt))

read_back : (v : Text) → unescape none (escape_chars v) ≡ v
read_back [] = unfold unescape in refl
read_back (c ∷ v) = unescape-escape_char c (escape_chars v) ∙ ap (◌∷◌ c) (read_back v)

escape_chars-IsInert : (v : Text) → All IsInert (escape_chars v)
escape_chars-IsInert [] = tt
escape_chars-IsInert (c ∷ v) =
    All-append IsInert (escape_char c) (escape_chars v) (escape_char-IsInert c)
      (escape_chars-IsInert v)

-- An escaped text holds none of `<`, `>` and the double quote (an apostrophe is kept), and a reader
-- of HTML takes it for the text that was escaped.
pub escape_html-IsInert :
    (v : Text) → All IsInert (escape_html v) × (unescape none (escape_html v) ≡ v)
escape_html-IsInert v = rw (escape_html_lem v) (escape_chars-IsInert v, read_back v)
