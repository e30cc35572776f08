-- ===== src/Files/Tests.antt =====
-- Runs and witnesses of the files of a thread, with an answer whose whole text is one file.
use dgx_spark_llm_platform.Base.{true, List, [], ◌∷◌, Option, none, some, ◌≡◌, refl}
use dgx_spark_llm_platform.Base.Text.{
  Text, codes, text_eq, split, trim, trim_start, trim_end, is_space,
}
use dgx_spark_llm_platform.Decisions.Value.{Json, string, object, field, no_field}
use dgx_spark_llm_platform.Messages.{ChatMsg, user, assistant}
use dgx_spark_llm_platform.Files.{content_in, files_until, file_versions, trim_after_ask}
use dgx_spark_llm_platform.Files.Names.{download_name, mime_for_language, lang_from_name}
use dgx_spark_llm_platform.Files.Changes.{Artifact, replaced, cut_at}
use dgx_spark_llm_platform.Base.{map, replicate}
use dgx_spark_llm_platform.Files.Maps.{FileEntry}
use dgx_spark_llm_platform.Rejoin.{lower}
use dgx_spark_llm_platform.Ask.Blocks.{blocks}
use dgx_spark_llm_platform.Files.Fragments.{anonymous_fragment, info_head, named_fragments}
use dgx_spark_llm_platform.Files.{apply_edits}
use dgx_spark_llm_platform.Rejoin.{is_some}
use dgx_spark_llm_platform.Files.Reached.{apply_edits-is_some}
use dgx_spark_llm_platform.Files.History.{versions_of, content_changes}
use dgx_spark_llm_platform.Files.Current.{current, states_of, file_versions-files_until}

abbrev parse : Text → Option Json
parse s = none

abbrev parse_artifacts : Text → Text → (Text → Option Text) → List Artifact
parse_artifacts content request existing =
    record { is_code = true; title = codes "a.py"; lang = codes "python"; content = content } ∷ []

abbrev answer : Text → ChatMsg
answer content = record {
  role = assistant;
  content = content;
  reasoning = none;
  is_error = none;
  images = none;
  hidden = none;
  truncated = none;
  pending = none;
  file_edits = none;
}

abbrev thread : List ChatMsg
thread =
    record (answer (codes "Hi")) { role = user }
    ∷ answer (codes "one")
    ∷ record (answer (codes "two")) {
      file_edits = some (record { name = codes "b.js"; content = codes "b" } ∷ []);
    }
    ∷ []

file_versions_run :
    file_versions parse parse_artifacts thread
    ≡ (
      codes "a.py",
      record { index = 1; content = codes "one"; lang = codes "python" }
          ∷ record { index = 2; content = codes "two"; lang = codes "python" }
          ∷ [],
    )
      ∷ (codes "b.js", record { index = 2; content = codes "b"; lang = codes "javascript" } ∷ [])
      ∷ []
unfolding file_versions text_eq split
file_versions_run = refl

file_versions-files_until_example :
    (versions_of (codes "a.py") (file_versions parse parse_artifacts thread)
      ≡ content_changes none 0 (states_of parse parse_artifacts thread (codes "a.py")))
    × (current (file_versions parse parse_artifacts thread) (codes "a.py")
        ≡ content_in (files_until parse parse_artifacts thread 3) (codes "a.py"))
file_versions-files_until_example =
    file_versions-files_until parse parse_artifacts thread (codes "a.py")

-- A dollar sign behind a quote, in the replacement of an edit, becomes the rest of the file.
replaced_run :
    replaced
      (record { file = []; find = codes "x"; replace = codes "'$'" })
      (cut_at (codes "x") (codes "axb"))
      (codes "axb")
    ≡ codes "a'bb"
unfolding replaced cut_at
replaced_run = refl

names_run :
    (download_name (codes "html 1") (codes "HTML") ≡ codes "html-1.html")
    × (download_name (codes "a.py") (codes "") ≡ codes "a.py")
    × (mime_for_language (codes "sh") ≡ codes "text/x-shellscript")
    × (lang_from_name (codes "b/c.RS") ≡ codes "rust")
unfolding download_name mime_for_language lang_from_name text_eq split
names_run = (refl, refl, refl, refl)

trim_after_ask_run : trim_after_ask (codes "a```ask\nb```c") ≡ codes "a```ask\nb```"
unfolding trim_after_ask
trim_after_ask_run = refl

abbrev big : List (Text × FileEntry)
big = (codes "a.py", record { content = replicate 900 b'x'; lang = codes "python" }) ∷ []

-- A short block of the same language is a snippet of the known file, named or not.
anonymous_run :
    (anonymous_fragment (map lower) big (blocks info_head (codes "```Python\nx\n```"))
      ≡ codes "a.py" ∷ [])
    × (anonymous_fragment (map lower) big (blocks info_head (codes "```js\nx\n```")) ≡ [])
    × (named_fragments big (
          record {
            is_code = true;
            title = codes "fichier-2.py";
            lang = codes "python";
            content = codes "x";
          }
          ∷ [])
        ≡ codes "a.py" ∷ [])
unfolding anonymous_fragment blocks info_head lower text_eq trim trim_start trim_end is_space
    named_fragments
anonymous_run = (refl, refl, refl)

-- An edit of a known file, by what follows the slash of its name.
abbrev edit_parse : Text → Option Json
edit_parse s = some (
    object (
      field (codes "find") (string (codes "o")) (
        field (codes "replace") (string (codes "0"))
          (field (codes "file") (string (codes "x/a.py")) no_field))))

abbrev edited : List ChatMsg
edited = answer (codes "one") ∷ answer (codes "```edit\n{}\n```") ∷ []

apply_edits-is_some_example : is_some (apply_edits edit_parse parse_artifacts edited 1) ≡ true
apply_edits-is_some_example = apply_edits-is_some edit_parse parse_artifacts edited 1

-- An edit whose anchor was there before the answer counts as made, with the file as the answer
-- leaves it.
apply_edits_run :
    (elim (apply_edits edit_parse parse_artifacts edited 1) [
      | none ↦ []
      | some applied ↦ applied.touched
    ])
    ≡ (
      codes "a.py",
      record {
        is_code = true;
        title = codes "a.py";
        lang = codes "python";
        content = codes "```edit\n{}\n```";
      },
    )
      ∷ []
unfolding apply_edits text_eq trim trim_start trim_end is_space
apply_edits_run = refl
