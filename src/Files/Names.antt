-- ===== src/Files/Names.antt =====
-- The languages of files: `LANG_INFO`, `downloadName`, `mimeForLanguage`, `EXT_LANG` and
-- `langFromName` of dgx-portal-frontend/lib/playground-thread.ts. `toLowerCase` is modelled as far as
-- it yields a letter of the tables.
use dgx_spark_llm_platform.Base.{
  ℕ, Bool, false, not, ◌&&◌, ◌||◌, List, [], ◌∷◌, ◌++◌, map, Option, none, some, length, all, leb,
  ◌==◌, if◌then◌else◌,
}
use dgx_spark_llm_platform.Base.Text.{Text, codes, text_eq, split}
use dgx_spark_llm_platform.Fence.{lower}
use dgx_spark_llm_platform.Rejoin.{found}

-- The extension and the content type of a language.
pub record LangInfo : Type 0 where
  pub ext : Text
  pub mime : Text

unfoldable pub find_key {ℓ} : {A : Type ℓ} → Text → List (Text × A) → Option A
unfolding text_eq
find_key key [] = none
find_key key ((k, a) ∷ table) =
    let rest = find_key key table in if text_eq k key then some a else rest

abbrev plain : Text → Text → Text × LangInfo
plain lang ext = (lang, record { ext = ext; mime = codes "text/plain" })

-- The last entry is what an object inherits: a function, which has neither member.
abbrev pub lang_info : List (Text × LangInfo)
lang_info =
    (codes "html", record { ext = codes "html"; mime = codes "text/html" })
    ∷ (codes "htm", record { ext = codes "html"; mime = codes "text/html" })
    ∷ (codes "css", record { ext = codes "css"; mime = codes "text/css" })
    ∷ (codes "javascript", record { ext = codes "js"; mime = codes "text/javascript" })
    ∷ (codes "js", record { ext = codes "js"; mime = codes "text/javascript" })
    ∷ plain (codes "typescript") (codes "ts")
    ∷ plain (codes "ts") (codes "ts")
    ∷ plain (codes "tsx") (codes "tsx")
    ∷ plain (codes "jsx") (codes "jsx")
    ∷ (codes "json", record { ext = codes "json"; mime = codes "application/json" })
    ∷ (codes "yaml", record { ext = codes "yml"; mime = codes "text/yaml" })
    ∷ (codes "yml", record { ext = codes "yml"; mime = codes "text/yaml" })
    ∷ plain (codes "toml") (codes "toml")
    ∷ (codes "python", record { ext = codes "py"; mime = codes "text/x-python" })
    ∷ (codes "py", record { ext = codes "py"; mime = codes "text/x-python" })
    ∷ (codes "bash", record { ext = codes "sh"; mime = codes "text/x-shellscript" })
    ∷ (codes "sh", record { ext = codes "sh"; mime = codes "text/x-shellscript" })
    ∷ (codes "shell", record { ext = codes "sh"; mime = codes "text/x-shellscript" })
    ∷ plain (codes "sql") (codes "sql")
    ∷ (codes "xml", record { ext = codes "xml"; mime = codes "text/xml" })
    ∷ (codes "markdown", record { ext = codes "md"; mime = codes "text/markdown" })
    ∷ (codes "md", record { ext = codes "md"; mime = codes "text/markdown" })
    ∷ plain (codes "go") (codes "go")
    ∷ plain (codes "rust") (codes "rs")
    ∷ plain (codes "rs") (codes "rs")
    ∷ plain (codes "java") (codes "java")
    ∷ plain (codes "c") (codes "c")
    ∷ plain (codes "cpp") (codes "cpp")
    ∷ plain (codes "php") (codes "php")
    ∷ plain (codes "ruby") (codes "rb")
    ∷ plain (codes "constructor") (codes "undefined")
    ∷ plain (codes "__proto__") (codes "undefined")
    ∷ []

unfoldable pub is_alnum : ℕ → Bool
is_alnum c = (leb b'a' c && leb c b'z') || (leb b'A' c && leb c b'Z') || (leb b'0' c && leb c b'9')

-- `\.[a-z0-9]{1,6}$`, at the start, in any case
unfoldable pub is_extension : Text → Bool
unfolding is_alnum
is_extension [] = false
is_extension (c ∷ s) = (c == b'.') && leb 1 (length s) && leb (length s) 6 && all is_alnum s

-- `[\w.-]`
unfoldable pub is_plain : ℕ → Bool
unfolding is_alnum
is_plain c = is_alnum c || (c == b'_') || (c == b'.') || (c == b'-')

-- `.replace(/[^\w.-]+/g, "-")`; the flag says that the character before was replaced.
unfoldable pub dashed : Bool → Text → Text
unfolding is_plain
dashed replaced [] = []
dashed replaced (c ∷ s) =
    let rest = dashed (not (is_plain c)) s in
    if is_plain c then c ∷ rest else if replaced then rest else b'-' ∷ rest

unfoldable pub strip_first : Text → Text
strip_first [] = []
strip_first (c ∷ s) = let rest = strip_first s in if c == b'-' then rest else c ∷ s

unfoldable pub strip_last_dashes : Text → Text
strip_last_dashes [] = []
strip_last_dashes (c ∷ s) = put c (strip_last_dashes s)
  where
    put : ℕ → Text → Text
    put c [] = if c == b'-' then [] else c ∷ []
    put c (d ∷ s) = c ∷ d ∷ s

unfoldable pub or_fichier : Text → Text
or_fichier [] = codes "fichier"
or_fichier (c ∷ s) = c ∷ s

unfoldable pub extension_of : Option LangInfo → Text
extension_of none = codes "txt"
extension_of (some info) = info.ext

unfoldable pub download_name : Text → Text → Text
unfolding find_key is_extension dashed strip_first strip_last_dashes or_fichier extension_of lower
    found
download_name title lang =
    let base = or_fichier (map lower (strip_last_dashes (strip_first (dashed false title)))) in
    if found is_extension title
    then title
    else base ++ b'.' ∷ extension_of (find_key (map lower lang) lang_info)

unfoldable pub mime_for_language : Text → Text
unfolding find_key lower
mime_for_language lang = elim (find_key (map lower lang) lang_info) [
  | none ↦ codes "text/plain"
  | some info ↦ info.mime
]

-- `EXT_LANG`
abbrev pub ext_lang : List (Text × Text)
ext_lang =
    (codes "py", codes "python")
    ∷ (codes "js", codes "javascript")
    ∷ (codes "ts", codes "typescript")
    ∷ (codes "tsx", codes "tsx")
    ∷ (codes "jsx", codes "jsx")
    ∷ (codes "html", codes "html")
    ∷ (codes "css", codes "css")
    ∷ (codes "json", codes "json")
    ∷ (codes "md", codes "markdown")
    ∷ (codes "sh", codes "bash")
    ∷ (codes "yml", codes "yaml")
    ∷ (codes "yaml", codes "yaml")
    ∷ (codes "go", codes "go")
    ∷ (codes "rs", codes "rust")
    ∷ (codes "java", codes "java")
    ∷ (codes "c", codes "c")
    ∷ (codes "cpp", codes "cpp")
    ∷ (codes "rb", codes "ruby")
    ∷ (codes "php", codes "php")
    ∷ (codes "sql", codes "sql")
    ∷ []

-- `name.split(".").pop()`
unfoldable pub last_part : List Text → Text
last_part [] = []
last_part (part ∷ []) = part
last_part (part ∷ next ∷ parts) = last_part (next ∷ parts)

-- `langFromName`; a name that ends in `.constructor` or `.__proto__`, where the source finds a
-- function or an object, is taken for text.
unfoldable pub lang_from_name : Text → Text
unfolding find_key last_part lower split
lang_from_name name = elim (find_key (map lower (last_part (split b'.' name))) ext_lang) [
  | none ↦ codes "text"
  | some lang ↦ lang
]
