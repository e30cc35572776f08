-- ===== src/Files/Current.antt =====
-- The versions of each file are the changes of its content, and the last one is its content now.
use mathlib.Core.Path.{subst}
use dgx_spark_llm_platform.Base.{
  ℕ, suc, true, List, [], ◌∷◌, Option, none, some, take-length, length, if◌then◌else◌, ◌≡◌, refl,
  sym, ap, ◌∙◌, arith, Bool-cases, inl, inr,
}
use dgx_spark_llm_platform.Base.Text.{Text, text_eq, text_eq_sound}
use dgx_spark_llm_platform.Decisions.Value.{Json}
use dgx_spark_llm_platform.Messages.{ChatMsg}
use dgx_spark_llm_platform.Files.{
  Thread, no_file, content_in, read_message, walk_thread, files_until, file_versions,
}
use dgx_spark_llm_platform.Files.Names.{find_key}
use dgx_spark_llm_platform.Files.Maps.{
  FileEntry, Files, FileVersion, Versions, or_no_version, is_same_last, add_version, add_versions,
  versions_from,
}
use dgx_spark_llm_platform.Files.Changes.{Artifact}
use dgx_spark_llm_platform.Files.Keys.{find_key-set, IsMap, Built-IsMap, Built-find_key}
use dgx_spark_llm_platform.Files.History.{
  last_content, last_content-append, content_changes, versions_of, versions_of-versions_from,
  tabulate, walk_thread-IsMap, walk_thread-tabulate,
}
use dgx_spark_llm_platform.Files.Built.{read_message-Built}

unfoldable pub current : Versions → Text → Option Text
unfolding last_content or_no_version find_key
current out name = last_content (or_no_version (find_key name out))

is_same_last_lem :
    (list : List FileVersion) (content : Text)
    → is_same_last list content ≡ true
    → last_content list ≡ some content
unfolding is_same_last last_content
is_same_last_lem [] content h = ground arith
is_same_last_lem (v ∷ []) content h = ap some (text_eq_sound v.content content h)
is_same_last_lem (v ∷ w ∷ list) content h = is_same_last_lem (w ∷ list) content h

current-add_version :
    (index : ℕ) (name : Text) (f : FileEntry) (out : Versions) (n : Text)
    → current (add_version index name f out) n
      ≡ (if text_eq name n then some f.content else current out n)
unfolding current add_version
current-add_version index name f out n =
    let list = or_no_version (find_key name out) in
    elim (Bool-cases (is_same_last list f.content)) [
      | inl e ↦ rw e (elim (Bool-cases (text_eq name n)) [
        | inl s ↦ rw s (
            ap (λ k. last_content (or_no_version (find_key k out))) (sym (text_eq_sound name n s))
            ∙ is_same_last_lem list f.content e)
        | inr s ↦ rw s refl
      ])
      | inr e ↦ rw e (
          rw (find_key-set n name _ out) (elim (Bool-cases (text_eq name n)) [
            | inl s ↦ rw s (last_content-append list _)
            | inr s ↦ rw s refl
          ]))
    ]

content_or : Option FileEntry → Option Text → Option Text
content_or (some f) other = some f.content
content_or none other = other

current-add_versions :
    (index : ℕ) (files : Files) (out : Versions) (n : Text)
    → IsMap files
    → current (add_versions index files out) n ≡ content_or (find_key n files) (current out n)
unfolding add_versions find_key content_or IsMap
current-add_versions index [] out n h = refl
current-add_versions index ((name, f) ∷ files) out n (fresh, h) =
    current-add_versions index files (add_version index name f out) n h
    ∙ ap (content_or (find_key n files)) (current-add_version index name f out n)
    ∙ (elim (Bool-cases (text_eq name n)) [
      | inl s ↦ rw s (
          ap (λ o. content_or o (some f.content))
            (subst (λ k. find_key k files ≡ none) (text_eq_sound name n s) fresh))
      | inr s ↦ rw s refl
    ])

none_kept :
    (a b : Option FileEntry)
    → (a ≡ none → b ≡ none)
    → (o : Option Text) → o ≡ content_or b none
    → content_or a o ≡ content_or a none
unfolding content_or
none_kept (some f) b h o e = refl
none_kept none b h o e = e ∙ ap (λ c. content_or c none) (h refl)

content_or-content_in :
    (files : Files) (name : Text) → content_or (find_key name files) none ≡ content_in files name
unfolding content_in
content_or-content_in files name = by_entry (find_key name files)
  where
    by_entry :
        (f : Option FileEntry)
        → content_or f none ≡ (elim f [ none ↦ none | some f ↦ some f.content ])
    by_entry none = unfold content_or in refl
    by_entry (some f) = unfold content_or in refl

module _ (parse : Text → Option Json)
    (parse_artifacts : Text → Text → (Text → Option Text) → List Artifact) where
  -- The versions after the walk, from versions that are current before it.
  current-walk :
      (previous : Option ChatMsg) (messages : List ChatMsg) (thread : Thread) (index : ℕ)
      (out : Versions)
      → IsMap thread.files
      → ((n : Text) → current out n ≡ content_or (find_key n thread.files) none)
      → (n : Text)
      → let walked = walk_thread parse parse_artifacts previous messages thread in
        current (versions_from index (walked.1) out) n
        ≡ content_or (find_key n ((walked.0).files)) none
  unfolding walk_thread versions_from
  current-walk previous [] thread index out h same n = same n
  current-walk previous (m ∷ messages) thread index out h same n =
      let next = read_message parse parse_artifacts previous m thread in
      let built = read_message-Built parse parse_artifacts previous m thread in
      let valid = Built-IsMap built h in
      current-walk (some m) messages next (suc index) (add_versions index next.files out) valid
        (λ k.
          current-add_versions index next.files out k valid
          ∙ none_kept (find_key k next.files) (find_key k thread.files) (Built-find_key built k)
              (current out k) (same k))
        n

  -- What the file of a name is behind each message of a thread.
  abbrev pub states_of : List ChatMsg → Text → List (Option FileEntry)
  states_of messages name =
      tabulate (length messages)
        (λ k. find_key name (files_until parse parse_artifacts messages (suc k)))

  file_versions-states_of :
      (messages : List ChatMsg) (name : Text)
      → versions_of name (file_versions parse parse_artifacts messages)
        ≡ content_changes none 0 (states_of messages name)
  unfolding file_versions files_until last_content or_no_version find_key
  file_versions-states_of messages name =
      versions_of-versions_from name 0 _ []
        (walk_thread-IsMap parse parse_artifacts none messages no_file (unfold IsMap in tt))
      ∙ ap (content_changes none 0)
          (walk_thread-tabulate parse parse_artifacts name none messages no_file)

  current-file_versions :
      (messages : List ChatMsg) (name : Text)
      → current (file_versions parse parse_artifacts messages) name
        ≡ content_in (files_until parse parse_artifacts messages (length messages)) name
  unfolding file_versions files_until
  current-file_versions messages name =
      current-walk none messages no_file 0 [] (unfold IsMap in tt)
        (λ n. unfold current find_key content_or last_content or_no_version in refl) name
      ∙ content_or-content_in _ name
      ∙ ap (λ ms. content_in ((walk_thread parse parse_artifacts none ms no_file).0.files) name)
          (sym (take-length messages))

  -- For every name, the versions are the changes of content of the file, message by message: a
  -- version for each message behind which `filesUntil` has a content that is not the one before it,
  -- with the index of that message and the content and language the file has there. So the last
  -- version holds the content of the file at the end of the thread (a change of language alone
  -- makes no version), and a name that is no file has none.
  pub file_versions-files_until :
      (messages : List ChatMsg) (name : Text)
      → (versions_of name (file_versions parse parse_artifacts messages)
          ≡ content_changes none 0 (states_of messages name))
        × (current (file_versions parse parse_artifacts messages) name
            ≡ content_in (files_until parse parse_artifacts messages (length messages)) name)
  file_versions-files_until messages name =
      (file_versions-states_of messages name, current-file_versions messages name)
