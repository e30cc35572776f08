-- ===== src/Files/Built.antt =====
-- What an answer does to the map of files is a run of `files.set`.
use dgx_spark_llm_platform.Base.{
  Bool, true, false, not, ◌&&◌, List, [], ◌∷◌, Option, none, some, if◌then◌else◌, Bool-cases, inl,
  inr,
}
use dgx_spark_llm_platform.Base.Text.{Text}
use dgx_spark_llm_platform.Decisions.Value.{Json}
use dgx_spark_llm_platform.Messages.{ChatMsg, EditedFile}
use dgx_spark_llm_platform.Ask.Values.{FileEdit, parse_edits}
use dgx_spark_llm_platform.Fence.{closed_content, count_from, is_odd}
use dgx_spark_llm_platform.Rejoin.{found}
use dgx_spark_llm_platform.Files.{
  Thread, set_open, content_or_empty, content_in, resume_file, read_files, read_message,
}
use dgx_spark_llm_platform.Files.Maps.{FileEntry, Files}
use dgx_spark_llm_platform.Files.Changes.{
  Artifact, keep_artifact, keep_artifacts, is_last, edit_file, keep_edits, key_of, find_open,
  keep_tools, is_resume, is_protocol, is_user, last_title, tool_edits,
}
use dgx_spark_llm_platform.Files.Keys.{Built, same, put, Built_trans}

-- A test chooses between two runs.
either : (b : Bool) {m n o : Files} → Built m n → Built m o → Built m (if b then n else o)
either true g h = g
either false g h = h

keep_artifact-Built :
    (unfinished : Option Text) (a : Artifact) (last : Bool) (files : Files)
    → Built files (keep_artifact unfinished a last files)
unfolding keep_artifact
keep_artifact-Built unfinished a last files =
    let stored = put a.title (record { content = a.content; lang = a.lang }) same in
    either _ same (either _ stored (either _ same stored))

keep_artifacts-Built :
    (unfinished : Option Text) (arts : List Artifact) (files : Files)
    → Built files (keep_artifacts unfinished arts files)
unfolding keep_artifacts
keep_artifacts-Built unfinished [] files = same
keep_artifacts-Built unfinished (a ∷ more) files =
    Built_trans (keep_artifact-Built unfinished a (is_last more) files)
      (keep_artifacts-Built unfinished more _)

edit_file-Built :
    (e : FileEdit) (key : Option Text) (target : Option FileEntry) (files : Files)
    → Built files (edit_file e key target files)
unfolding edit_file
edit_file-Built e none target files = same
edit_file-Built e (some key) none files = same
edit_file-Built e (some key) (some target) files = either _ (put key _ same) same

keep_edits-Built : (edits : List FileEdit) (files : Files) → Built files (keep_edits edits files)
unfolding keep_edits
keep_edits-Built [] files = same
keep_edits-Built (e ∷ edits) files =
    Built_trans (edit_file-Built e (key_of e.file files) _ files) (keep_edits-Built edits _)

keep_tools-Built : (edits : List EditedFile) (files : Files) → Built files (keep_tools edits files)
unfolding keep_tools
keep_tools-Built [] files = same
keep_tools-Built (f ∷ edits) files = put f.name _ (keep_tools-Built edits _)

set_open-Built :
    (name : Option Text) (f : FileEntry) (files : Files) → Built files (set_open name f files)
unfolding set_open
set_open-Built none f files = same
set_open-Built (some name) f files = put name f same

resume_file-Built :
    (m : ChatMsg) (thread : Thread) (target : Option FileEntry)
    → Built thread.files ((resume_file m thread target).files)
unfolding resume_file
resume_file-Built m thread none = same
resume_file-Built m thread (some target) = set_open-Built thread.unfinished _ thread.files

module _ (parse : Text → Option Json)
    (parse_artifacts : Text → Text → (Text → Option Text) → List Artifact) where
  read_files-Built :
      (previous : Option ChatMsg) (m : ChatMsg) (files : Files)
      → Built files ((read_files parse parse_artifacts previous m files).files)
  unfolding read_files
  read_files-Built previous m files =
      let arts =
        parse_artifacts (closed_content m.content) (content_or_empty previous) (content_in files) in
      let unfinished = if is_odd (count_from 0 m.content) then last_title arts else none in
      Built_trans (keep_artifacts-Built unfinished arts files) (
        Built_trans (keep_edits-Built (parse_edits parse m.content) _)
          (keep_tools-Built (tool_edits m.file_edits) _))

  pub read_message-Built :
      (previous : Option ChatMsg) (m : ChatMsg) (thread : Thread)
      → Built thread.files ((read_message parse parse_artifacts previous m thread).files)
  unfolding read_message
  read_message-Built previous m thread = elim (Bool-cases (is_user m.role)) [
    | inl e ↦ rw e same
    | inr e ↦ rw e (elim (Bool-cases (is_resume previous && not (found is_protocol m.content))) [
      | inl f ↦ rw f (resume_file-Built m thread (find_open thread.files thread.unfinished))
      | inr f ↦ rw f (read_files-Built previous m thread.files)
    ])
  ]
