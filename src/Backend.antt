-- ===== src/Backend.antt =====
-- Which backend serves a path: dgx-portal-frontend/lib/backend.ts. The environment variables and
-- the text of the prefix file are arguments. Methods and prefix entries are ASCII, so that
-- `toUpperCase` changes the letters a to z only.
pub mod Prefixes
mod Tests
use dgx_spark_llm_platform.Base.{
  ℕ, ◌+◌, ◌-◌, Bool, true, false, not, ◌&&◌, ◌||◌, List, [], ◌∷◌, ◌++◌, Option, none, some, any,
  map, length, ltb, leb, ◌==◌, if◌then◌else◌,
}
use dgx_spark_llm_platform.Base.Text.{Text, codes, text_eq, split, newline, trim, is_space}

abbrev pub slash : ℕ
slash = b'/'

abbrev pub star : Text
star = codes "*"

unfoldable pub is_empty : Text → Bool
is_empty [] = true
is_empty (_ ∷ _) = false

unfoldable pub starts_with_char : ℕ → Text → Bool
starts_with_char c [] = false
starts_with_char c (d ∷ s) = d == c

unfoldable pub filter_text : (Text → Bool) → List Text → List Text
filter_text p [] = []
filter_text p (x ∷ xs) = let rest = filter_text p xs in if p x then x ∷ rest else rest

unfoldable pub parse_prefixes : Text → List Text
unfolding filter_text is_empty starts_with_char
parse_prefixes text =
    filter_text (λ l. not (is_empty l) && not (starts_with_char b'#' l))
      (map trim (split newline text))

unfoldable pub upper : ℕ → ℕ
upper c = if leb b'a' c && leb c b'z' then c - 32 else c

-- `toUpperCase()`
abbrev pub to_upper : Text → Text
to_upper = map upper

unfoldable pub has_space : Text → Bool
has_space s = any (λ c. c == b' ') s

-- The two parts of `entry.split(/\s+/, 2)`.
unfoldable pub first_word : Text → Text
first_word [] = []
first_word (c ∷ s) = let rest = first_word s in if is_space c then [] else c ∷ rest

unfoldable pub behind_first_word : Bool → Text → Text
behind_first_word in_gap [] = []
behind_first_word true (c ∷ s) =
    let rest = behind_first_word true s in if is_space c then rest else c ∷ s
behind_first_word false (c ∷ s) = behind_first_word (is_space c) s

unfoldable pub split_entry : Text → Text × Text
unfolding has_space first_word behind_first_word
split_entry entry =
    if has_space entry
    then (first_word entry, first_word (behind_first_word false entry))
    else ([], entry)

-- `p.endsWith(c)`, and `p` without its last character if that is `c`.
unfoldable pub ends_with_char : ℕ → Text → Bool
ends_with_char c [] = false
ends_with_char c (d ∷ []) = d == c
ends_with_char c (d ∷ e ∷ s) = ends_with_char c (e ∷ s)

unfoldable pub strip_last : ℕ → Text → Text
strip_last c [] = []
strip_last c (d ∷ []) = if d == c then [] else d ∷ []
strip_last c (d ∷ e ∷ s) = d ∷ strip_last c (e ∷ s)

-- `want.every((seg, i) => seg === got[i] || (seg === "*" && got[i] !== ""))`; past the end of `got`
-- the element is `undefined`, which is neither the segment nor the empty text.
unfoldable pub segments_match : List Text → List Text → Bool
segments_match [] got = true
segments_match (seg ∷ want) [] = text_eq seg star && segments_match want []
segments_match (seg ∷ want) (g ∷ got) =
    (text_eq seg g || (text_eq seg star && not (is_empty g))) && segments_match want got

-- The test of one entry.
unfoldable pub covers : Text → Text → Text → Bool
unfolding is_empty ends_with_char strip_last segments_match split_entry
covers method pathname entry =
    let (only, p) = split_entry entry in
    let exact = ends_with_char b'$' p in
    let want = split slash (strip_last slash (strip_last b'$' p)) in
    let got = split slash pathname in
    if not (is_empty only) && not (text_eq (to_upper only) (to_upper method))
    then false
    else if (if exact then not (length got == length want) else ltb (length got) (length want))
    then false
    else segments_match want got

unfoldable pub route_backend : Text → Text → List Text → Text → Text → Text
unfolding is_empty
route_backend pathname rust_url prefixes flask_url method =
    if is_empty rust_url
    then flask_url
    else if any (covers method pathname) prefixes
    then rust_url
    else flask_url

-- What is read at start.
pub record Backends : Type 0 where
  pub flask_url : Text
  pub rust_url : Text
  pub prefixes : List Text

-- `loadPrefixes`; `none` is a file that cannot be read.
unfoldable pub load_prefixes : Option Text → List Text
load_prefixes none = []
load_prefixes (some text) = parse_prefixes text

unfoldable pub backend_for : Backends → Text → Text → Text
unfolding route_backend
backend_for b pathname method = route_backend pathname b.rust_url b.prefixes b.flask_url method

unfoldable pub on_rust : Backends → Text → Text → Bool
on_rust b pathname method = not (text_eq (backend_for b pathname method) b.flask_url)
