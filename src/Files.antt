-- ===== src/Files.antt =====
-- The files of a thread: `filesUntil`, `fileVersions`, `messageMerge`, `fileLeftOpen`,
-- `trimAfterAsk` and `applyEdits` of dgx-portal-frontend/lib/playground-thread.ts. A
-- map is the list of its entries, in order of insertion, and an index is the number of messages up
-- to it. `parseArtifacts`, which finds the files in one answer, is a parameter, as is `JSON.parse`.
pub mod Names
pub mod Maps
pub mod Changes
mod Tests
pub mod Keys
pub mod Reached
pub mod Fragments
pub mod Built
pub mod Current
pub mod History
use dgx_spark_llm_platform.Base.{
  ℕ, zero, suc, ◌+◌, ◌-◌, ◌*◌, Bool, true, false, not, ◌&&◌, ◌||◌, List, [], ◌∷◌, ◌++◌, map, Option,
  none, some, length, take, drop, get_elem?, any, ltb, leb, ◌==◌, if◌then◌else◌,
}
use dgx_spark_llm_platform.Base.Text.{Text, codes, text_eq, starts_with}
use dgx_spark_llm_platform.Decisions.Value.{Json}
use dgx_spark_llm_platform.Messages.{ChatMsg, Role, user, assistant, EditedFile}
use dgx_spark_llm_platform.Fence.{fence, count_from, is_odd, closed_content}
use dgx_spark_llm_platform.Rejoin.{rejoin, found, is_some, ends_with}
use dgx_spark_llm_platform.Ask.{incomplete_response}
use dgx_spark_llm_platform.Ask.Values.{FileEdit, parse_edits, is_filled}
use dgx_spark_llm_platform.Ask.Continued.{continuation_body}
use dgx_spark_llm_platform.Files.Names.{find_key, lang_from_name, is_alnum}
use dgx_spark_llm_platform.Files.Maps.{
  Files, set, Versions, or_no_version, is_same_last, add_version, add_versions, versions_from,
  FileEntry, FileVersion,
}
use dgx_spark_llm_platform.Files.Changes.{
  resume_prompt, is_true, is_user, is_resume, is_fragment, at_word_end, is_protocol, find_open,
  last_title, is_name, is_long_enough, is_last, keep_artifact, keep_artifacts, is_suffix_of,
  find_suffix, filled_name, key_of, cut_at, pattern_of, expand, replaced, edit_file, keep_edits,
  lang_or, keep_tools, tool_edits, Artifact,
}

-- The file that the last message left unfinished, and the files.
pub record Thread : Type 0 where
  pub files : Files
  pub unfinished : Option Text

abbrev pub no_file : Thread
no_file = record { files = []; unfinished = none }

unfoldable pub set_open : Option Text → FileEntry → Files → Files
unfolding set
set_open none f files = files
set_open (some name) f files = set name f files

-- A resume: it completes the file left open, where there is one.
unfoldable pub resume_file : ChatMsg → Thread → Option FileEntry → Thread
unfolding is_true set_open find_open rejoin continuation_body incomplete_response
resume_file m thread none = record thread { unfinished = none }
resume_file m thread (some target) =
    let fusion = rejoin target.content (continuation_body m.content) in
    record {
      files =
          set_open thread.unfinished (record { content = fusion; lang = target.lang }) thread.files;
      unfinished =
          if is_true m.truncated || incomplete_response fusion then thread.unfinished else none;
    }

-- `(name) => files.get(name)?.content`
unfoldable pub content_in : Files → Text → Option Text
unfolding find_key
content_in files name = elim (find_key name files) [ none ↦ none | some f ↦ some f.content ]

unfoldable pub content_or_empty : Option ChatMsg → Text
content_or_empty none = []
content_or_empty (some m) = m.content

-- `messages[index - 1]`
unfoldable pub message_before : List ChatMsg → ℕ → Option ChatMsg
message_before messages zero = none
message_before messages (suc index) = get_elem? messages index

-- The files of a resume that differ from what was there.
unfoldable pub changed_files : Files → Files → List Artifact
unfolding text_eq find_key
changed_files before [] = []
changed_files before ((title, f) ∷ after) =
    let rest = changed_files before after in
    elim (find_key title before) [
      | none ↦ rest
      | some a ↦
          if text_eq a.content f.content
          then rest
          else record { is_code = true; title = title; lang = f.lang; content = f.content } ∷ rest
    ]

-- `trimAfterAsk`
unfoldable pub trim_after_ask : Text → Text
unfolding cut_at
trim_after_ask content = elim (cut_at (codes "```ask") content) [
  | none ↦ content
  | some (before, behind) ↦ elim (cut_at fence behind) [
    | none ↦ content
    | some (block, rest) ↦ before ++ codes "```ask" ++ block ++ fence
  ]
]

-- What `applyEdits` returns.
pub record Applied : Type 0 where
  pub touched : List (Text × Artifact)
  pub failures : List Text

unfoldable pub or_question_mark : Text → Text
or_question_mark [] = codes "?"
or_question_mark (c ∷ s) = c ∷ s

-- A file that an edit touched; one that is gone throws: none.
unfoldable pub touch : Text → Option FileEntry → Applied → Option Applied
unfolding set
touch key none applied = none
touch key (some f) applied = some (record applied {
  touched =
      set key (record { is_code = true; title = key; lang = f.lang; content = f.content })
        applied.touched;
})

unfoldable pub touch_target :
    FileEdit → Text → Option FileEntry → Option FileEntry → Applied → Option Applied
unfolding touch cut_at is_some
touch_target e key none now applied = none
touch_target e key (some target) now applied =
    if is_some (cut_at e.find target.content)
    then touch key now applied
    else some (record applied { failures = applied.failures ++ key ∷ [] })

unfoldable pub apply_key : Files → Files → FileEdit → Option Text → Applied → Option Applied
unfolding touch_target find_key or_question_mark
apply_key before after e none applied =
    some (record applied { failures = applied.failures ++ or_question_mark e.file ∷ [] })
apply_key before after e (some key) applied =
    touch_target e key (find_key key before) (find_key key after) applied

-- One edit of `applyEdits`: what it touches, or why it failed.
unfoldable pub apply_edit : Files → Files → FileEdit → Applied → Option Applied
unfolding apply_key key_of
apply_edit before after e applied = apply_key before after e (key_of e.file before) applied

unfoldable pub apply_each : Files → Files → List FileEdit → Option Applied → Option Applied
unfolding apply_edit
apply_each before after edits none = none
apply_each before after [] applied = applied
apply_each before after (e ∷ edits) (some applied) =
    apply_each before after edits (apply_edit before after e applied)

module _ (parse : Text → Option Json)
    (parse_artifacts : Text → Text → (Text → Option Text) → List Artifact) where
  -- An answer that is no resume: its files, its edits and those of the tools.
  unfoldable pub read_files : Option ChatMsg → ChatMsg → Files → Thread
  unfolding closed_content content_or_empty content_in is_odd count_from last_title keep_artifacts
      keep_edits keep_tools tool_edits parse_edits
  read_files previous m files =
      let arts =
        parse_artifacts (closed_content m.content) (content_or_empty previous) (content_in files) in
      let unfinished = if is_odd (count_from 0 m.content) then last_title arts else none in
      record {
        files =
            keep_tools (tool_edits m.file_edits)
              (keep_edits (parse_edits parse m.content) (keep_artifacts unfinished arts files));
        unfinished = unfinished;
      }

  -- One round of the loop of `filesUntil`.
  unfoldable pub read_message : Option ChatMsg → ChatMsg → Thread → Thread
  unfolding read_files resume_file find_open is_resume found is_protocol is_user
  read_message previous m thread =
      if is_user m.role
      then thread
      else if is_resume previous && not (found is_protocol m.content)
      then resume_file m thread (find_open thread.files thread.unfinished)
      else read_files previous m thread.files

  -- The loop, with the files that are observed after each message.
  unfoldable pub walk_thread : Option ChatMsg → List ChatMsg → Thread → Thread × List Files
  unfolding read_message
  walk_thread previous [] thread = (thread, [])
  walk_thread previous (m ∷ messages) thread =
      let next = read_message previous m thread in
      let (last, states) = walk_thread (some m) messages next in (last, next.files ∷ states)

  unfoldable pub files_until : List ChatMsg → ℕ → Files
  unfolding walk_thread
  files_until messages n = ((walk_thread none (take n messages) no_file).0).files

  unfoldable pub file_versions : List ChatMsg → Versions
  unfolding walk_thread versions_from
  file_versions messages = versions_from 0 ((walk_thread none messages no_file).1) []

  unfoldable pub message_merge : List ChatMsg → ℕ → List Artifact
  unfolding changed_files files_until is_resume message_before is_user
  message_merge messages index = elim (get_elem? messages index) [
    | none ↦ []
    | some m ↦
        if is_user m.role || not (is_resume (message_before messages index))
        then []
        else changed_files (files_until messages index) (files_until messages (suc index))
  ]

  unfoldable pub file_left_open : List ChatMsg → ℕ → Bool
  unfolding message_merge incomplete_response is_resume message_before is_user
  file_left_open messages index = elim (get_elem? messages index) [
    | none ↦ false
    | some m ↦
        if is_user m.role
        then false
        else if is_resume (message_before messages index)
        then any (λ f. incomplete_response f.content) (message_merge messages index)
        else incomplete_response m.content
  ]

  unfoldable pub apply_edits : List ChatMsg → ℕ → Option Applied
  unfolding apply_each files_until parse_edits content_or_empty
  apply_edits messages index =
      let edits = parse_edits parse (content_or_empty (get_elem? messages index)) in
      apply_each (files_until messages index) (files_until messages (suc index)) edits
        (some (record { touched = []; failures = [] }))
