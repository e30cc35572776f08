-- ===== src/Files/Maps.antt =====
-- The map of files of a thread, and the versions of each: the `Map` objects of `filesUntil` and
-- `fileVersions` of dgx-portal-frontend/lib/playground-thread.ts, as lists of entries in order of
-- insertion.
use dgx_spark_llm_platform.Base.{
  ℕ, suc, Bool, false, List, [], ◌∷◌, ◌++◌, Option, none, some, if◌then◌else◌,
}
use dgx_spark_llm_platform.Base.Text.{Text, text_eq}
use dgx_spark_llm_platform.Files.Names.{find_key}

pub record FileEntry : Type 0 where
  pub content : Text
  pub lang : Text

-- `Map<string, …>`
abbrev pub Files : Type 0
Files = List (Text × FileEntry)

-- `files.set(name, f)`: in place, or behind all others.
unfoldable pub set {ℓ} : {A : Type ℓ} → Text → A → List (Text × A) → List (Text × A)
unfolding text_eq
set name f [] = (name, f) ∷ []
set name f ((k, old) ∷ files) =
    let rest = set name f files in if text_eq k name then (k, f) ∷ files else (k, old) ∷ rest

-- One version of a file, with the index of the message that produced it.
pub record FileVersion : Type 0 where
  pub index : ℕ
  pub content : Text
  pub lang : Text

abbrev pub Versions : Type 0
Versions = List (Text × List FileVersion)

unfoldable pub or_no_version : Option (List FileVersion) → List FileVersion
or_no_version none = []
or_no_version (some list) = list

-- `list[list.length - 1]?.content === f.content`
unfoldable pub is_same_last : List FileVersion → Text → Bool
unfolding text_eq
is_same_last [] content = false
is_same_last (v ∷ []) content = text_eq v.content content
is_same_last (v ∷ w ∷ list) content = is_same_last (w ∷ list) content

unfoldable pub add_version : ℕ → Text → FileEntry → Versions → Versions
unfolding or_no_version is_same_last set find_key
add_version index name f out =
    let list = or_no_version (find_key name out) in
    if is_same_last list f.content
    then out
    else set name (list ++ record { index = index; content = f.content; lang = f.lang } ∷ []) out

unfoldable pub add_versions : ℕ → Files → Versions → Versions
unfolding add_version
add_versions index [] out = out
add_versions index ((name, f) ∷ files) out = add_versions index files (add_version index name f out)

unfoldable pub versions_from : ℕ → List Files → Versions → Versions
unfolding add_versions
versions_from index [] out = out
versions_from index (files ∷ states) out =
    versions_from (suc index) states (add_versions index files out)
