-- ===== src/Files/Fragments.antt =====
-- The files for which an answer holds a snippet only: `messageFragments` of
-- dgx-portal-frontend/lib/playground-thread.ts. `toLowerCase` is a parameter, with `parseArtifacts`
-- and `JSON.parse`.
use dgx_spark_llm_platform.Base.{
  ℕ, Bool, true, false, not, ◌&&◌, ◌||◌, List, [], ◌∷◌, Option, none, some, drop, get_elem?, leb,
  ◌==◌, if◌then◌else◌,
}
use dgx_spark_llm_platform.Base.Text.{Text, codes, text_eq, trim, starts_with}
use dgx_spark_llm_platform.Decisions.Value.{Json}
use dgx_spark_llm_platform.Messages.{ChatMsg}
use dgx_spark_llm_platform.Fence.{fence, closed_content, cut_line, first_word, is_questions_block}
use dgx_spark_llm_platform.Rejoin.{behind_tag}
use dgx_spark_llm_platform.Ask.Blocks.{Block, Head, blocks}
use dgx_spark_llm_platform.Files.{files_until, content_or_empty, message_before}
use dgx_spark_llm_platform.Files.Names.{find_key, is_extension}
use dgx_spark_llm_platform.Files.Maps.{FileEntry, Files}
use dgx_spark_llm_platform.Files.Changes.{Artifact, is_fragment, is_user}

-- `\d+`, then an extension and the end
unfoldable pub is_number_name : Bool → Text → Bool
unfolding is_extension
is_number_name read [] = false
is_number_name read (c ∷ s) =
    let rest = is_number_name true s in
    if leb b'0' c && leb c b'9' then rest else read && is_extension (c ∷ s)

unfoldable pub is_numbered : Option Text → Bool
unfolding is_number_name
is_numbered none = false
is_numbered (some s) = is_number_name false s

-- `GENERIC_TITLE`
unfoldable pub is_generic : Text → Bool
unfolding is_numbered behind_tag
is_generic title =
    is_numbered (behind_tag (codes "fichier-") title)
    || is_numbered (behind_tag (codes "file-") title)

-- The first known file with this language that the block can be a snippet of.
unfoldable pub find_fragment : (FileEntry → Bool) → Text → Files → Option Text
unfolding is_fragment
find_fragment fits body [] = none
find_fragment fits body ((name, f) ∷ files) =
    let rest = find_fragment fits body files in
    if fits f && is_fragment (some f) body then some name else rest

unfoldable pub with_name : Option Text → List Text → List Text
with_name none names = names
with_name (some name) names = name ∷ names

-- The loop over the artifacts.
unfoldable pub named_fragments : Files → List Artifact → List Text
unfolding find_fragment with_name is_generic is_fragment find_key text_eq
named_fragments before [] = []
named_fragments before (a ∷ arts) =
    let rest = named_fragments before arts in
    if not a.is_code
    then rest
    else if is_fragment (find_key a.title before) a.content
    then a.title ∷ rest
    else if not (is_generic a.title)
    then rest
    else with_name (find_fragment (λ f. text_eq f.lang a.lang) a.content before) rest

-- "```([^\n`]*)\n"
unfoldable pub info_head : Head
unfolding cut_line starts_with
info_head at_start s = if starts_with fence s then without_tick (cut_line (drop 3 s)) else none
  where
    has_tick : Text → Bool
    has_tick [] = false
    has_tick (c ∷ s) = (c == b'`') || has_tick s

    without_tick : Option (Text × Text) → Option (Text × Text)
    without_tick none = none
    without_tick (some (info, rest)) = if has_tick info then none else some (info, rest)

unfoldable pub or_first : Option Text → List Text → List Text
or_first (some name) names = name ∷ []
or_first none names = names

module _ (to_lower : Text → Text) where
  -- The loop over the closed blocks: the first one that can be a snippet.
  unfoldable pub anonymous_fragment : Files → List Block → List Text
  unfolding find_fragment or_first is_questions_block first_word text_eq
  anonymous_fragment before [] = []
  anonymous_fragment before (b ∷ bs) =
      let rest = anonymous_fragment before bs in
      let lang = to_lower (first_word (trim b.lang)) in
      let fits : FileEntry → Bool = λ f. text_eq lang [] || text_eq (to_lower f.lang) lang in
      if not b.closed || text_eq lang (codes "edit") || is_questions_block lang b.body
      then rest
      else or_first (find_fragment fits b.body before) rest

  unfoldable pub or_anonymous : Files → Text → List Text → List Text
  unfolding anonymous_fragment blocks info_head
  or_anonymous before content (name ∷ names) = name ∷ names
  or_anonymous [] content [] = []
  or_anonymous (f ∷ before) content [] = anonymous_fragment (f ∷ before) (blocks info_head content)

  unfoldable pub message_fragments :
      (Text → Option Json)
      → (Text → Text → (Text → Option Text) → List Artifact)
      → List ChatMsg
      → ℕ
      → List Text
  unfolding or_anonymous named_fragments files_until closed_content content_or_empty message_before
      is_user
  message_fragments parse parse_artifacts messages index = elim (get_elem? messages index) [
    | none ↦ []
    | some m ↦
        let before = files_until parse parse_artifacts messages index in
        let arts =
          parse_artifacts (closed_content m.content)
            (content_or_empty (message_before messages index)) (λ name. none) in
        if is_user m.role then [] else or_anonymous before m.content (named_fragments before arts)
  ]
