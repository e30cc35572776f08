-- ===== src/Files/Changes.antt =====
-- What one answer changes in the files: the three inner loops of `filesUntil` of
-- dgx-portal-frontend/lib/playground-thread.ts, over artifacts, edits and the edits of tools, with
-- `isResume` and `isFragment`.
use dgx_spark_llm_platform.Base.{
  ℕ, ◌*◌, Bool, true, false, not, ◌&&◌, ◌||◌, List, [], ◌∷◌, ◌++◌, Option, none, some, length, drop,
  ltb, leb, ◌==◌, if◌then◌else◌,
}
use dgx_spark_llm_platform.Base.Text.{Text, codes, text_eq, starts_with}
use dgx_spark_llm_platform.Messages.{ChatMsg, Role, user, assistant, EditedFile}
use dgx_spark_llm_platform.Rejoin.{is_some, ends_with}
use dgx_spark_llm_platform.Ask.Values.{FileEdit, is_filled}
use dgx_spark_llm_platform.Files.Names.{find_key, lang_from_name, is_alnum}
use dgx_spark_llm_platform.Files.Maps.{FileEntry, Files, set}

-- An artifact of an answer: a code file, or a document.
pub record Artifact : Type 0 where
  pub is_code : Bool
  pub title : Text
  pub lang : Text
  pub content : Text

-- `RESUME_PROMPT`
abbrev pub resume_prompt : Text
resume_prompt =
    codes "Continue exactement l"
    ++ 224 ∷ codes " o"
    ++ 249 ∷ codes " tu t'es arr"
    ++ 234 ∷ codes "t"
    ++ 233 ∷ []

unfoldable pub is_true : Option Bool → Bool
is_true (some b) = b
is_true none = false

unfoldable pub is_user : Role → Bool
is_user user = true
is_user assistant = false

-- `isResume`, of a message that may be missing.
unfoldable pub is_resume : Option ChatMsg → Bool
unfolding is_true is_user starts_with
is_resume none = false
is_resume (some m) = is_user m.role && is_true m.hidden && starts_with resume_prompt m.content

-- `legacy.content.length > 800 && current.length < legacy.content.length * 0.66`
unfoldable pub is_fragment : Option FileEntry → Text → Bool
is_fragment none current = false
is_fragment (some legacy) current =
    ltb 800 (length legacy.content) && ltb (length current * 100) (length legacy.content * 66)

-- `\b`, behind a letter
unfoldable pub at_word_end : Text → Bool
unfolding is_alnum
at_word_end [] = true
at_word_end (c ∷ s) = not (is_alnum c || (c == b'_'))

-- "```(?:edit|ask)\b", at the start
unfoldable pub is_protocol : Text → Bool
unfolding at_word_end starts_with
is_protocol s =
    (starts_with (codes "```edit") s && at_word_end (drop 7 s))
    || (starts_with (codes "```ask") s && at_word_end (drop 6 s))

unfoldable pub find_open : Files → Option Text → Option FileEntry
unfolding find_key
find_open files none = none
find_open files (some name) = find_key name files

-- The title of the last artifact, where it is code.
unfoldable pub last_title : List Artifact → Option Text
last_title [] = none
last_title (a ∷ []) = if a.is_code then some a.title else none
last_title (a ∷ b ∷ more) = last_title (b ∷ more)

unfoldable pub is_name : Option Text → Text → Bool
unfolding text_eq
is_name none title = false
is_name (some name) title = text_eq title name

-- A file that is being written replaces one that is at most four times as long.
unfoldable pub is_long_enough : Option FileEntry → Text → Bool
is_long_enough none content = true
is_long_enough (some previous) content = leb (length previous.content) (length content * 4)

unfoldable pub is_last : List Artifact → Bool
is_last [] = true
is_last (a ∷ more) = false

unfoldable pub keep_artifact : Option Text → Artifact → Bool → Files → Files
unfolding set find_key is_name is_long_enough is_fragment
keep_artifact unfinished a last files =
    let previous = find_key a.title files in
    let stored = set a.title (record { content = a.content; lang = a.lang }) files in
    if not a.is_code
    then files
    else if last && is_name unfinished a.title && is_long_enough previous a.content
    then stored
    else if is_fragment previous a.content
    then files
    else stored

unfoldable pub keep_artifacts : Option Text → List Artifact → Files → Files
unfolding keep_artifact is_last
keep_artifacts unfinished [] files = files
keep_artifacts unfinished (a ∷ more) files =
    keep_artifacts unfinished more (keep_artifact unfinished a (is_last more) files)

-- The file that an edit names: by its name, else by what follows a slash.
unfoldable pub is_suffix_of : Text → Text → Bool
unfolding text_eq ends_with
is_suffix_of name k = text_eq k name || ends_with k (b'/' ∷ name) || ends_with name (b'/' ∷ k)

unfoldable pub find_suffix : Text → Files → Option Text
unfolding is_suffix_of
find_suffix name [] = none
find_suffix name ((k, f) ∷ files) =
    let rest = find_suffix name files in if is_suffix_of name k then some k else rest

-- `if (!key) continue`: an empty name is none.
unfoldable pub filled_name : Option Text → Option Text
filled_name (some (c ∷ s)) = some (c ∷ s)
filled_name _ = none

unfoldable pub key_of : Text → Files → Option Text
unfolding find_suffix filled_name is_some is_filled find_key
key_of name files =
    if is_some (find_key name files) && is_filled name
    then some name
    else filled_name (find_suffix name files)

-- Where a text first stands: what is before it and what behind.
unfoldable pub cut_at : Text → Text → Option (Text × Text)
unfolding starts_with
cut_at part [] = if starts_with part [] then some ([], []) else none
cut_at part (c ∷ s) =
    let rest = cut_at part s in
    if starts_with part (c ∷ s) then some ([], drop (length part) (c ∷ s)) else later rest
  where
    later : Option (Text × Text) → Option (Text × Text)
    later none = none
    later (some (before, behind)) = some (c ∷ before, behind)

-- The pattern of a dollar sign and this character, in a replacement.
unfoldable pub pattern_of : Text → Text → Text → ℕ → Text
pattern_of before part behind c =
    if c == b'$'
    then b'$' ∷ []
    else if c == b'&'
    then part
    else if c == b'`'
    then before
    else if c == b'\''
    then behind
    else b'$' ∷ c ∷ []

-- What `String.prototype.replace` makes of a replacement: the flag says that a dollar sign was read.
unfoldable pub expand : Text → Text → Text → Bool → Text → Text
unfolding pattern_of
expand before part behind dollar [] = if dollar then b'$' ∷ [] else []
expand before part behind dollar (c ∷ s) =
    let opens = not dollar && (c == b'$') in
    let rest = expand before part behind opens s in
    if opens then rest else (if dollar then pattern_of before part behind c else c ∷ []) ++ rest

unfoldable pub replaced : FileEdit → Option (Text × Text) → Text → Text
unfolding expand
replaced e none content = content
replaced e (some (before, behind)) content =
    before ++ expand before e.find behind false e.replace ++ behind

-- One edit, where it names a file; an anchor that is not found changes nothing.
unfoldable pub edit_file : FileEdit → Option Text → Option FileEntry → Files → Files
unfolding set cut_at replaced is_some
edit_file e (some key) (some target) files =
    let place = cut_at e.find target.content in
    if is_some place
    then set key (record { content = replaced e place target.content; lang = target.lang }) files
    else files
edit_file e _ _ files = files

unfoldable pub keep_edits : List FileEdit → Files → Files
unfolding edit_file key_of find_open
keep_edits [] files = files
keep_edits (e ∷ edits) files =
    let key = key_of e.file files in keep_edits edits (edit_file e key (find_open files key) files)

unfoldable pub lang_or : Text → Option FileEntry → Text
unfolding lang_from_name
lang_or name none = lang_from_name name
lang_or name (some f) = f.lang

-- The versions that the server's tools wrote.
unfoldable pub keep_tools : List EditedFile → Files → Files
unfolding set lang_or find_key
keep_tools [] files = files
keep_tools (f ∷ edits) files = keep_tools edits (
    set f.name (record { content = f.content; lang = lang_or f.name (find_key f.name files) })
      files)

unfoldable pub tool_edits : Option (List EditedFile) → List EditedFile
tool_edits none = []
tool_edits (some edits) = edits
