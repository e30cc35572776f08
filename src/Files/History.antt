-- ===== src/Files/History.antt =====
-- The versions of one file: a version where the content changes from one message to the next.
use mathlib.Core.Path.{subst}
use dgx_spark_llm_platform.Base.{
  ℕ, zero, suc, Bool, false, List, [], ◌∷◌, ◌++◌, append_assoc, append-nil, map, All, Option, none,
  some, take, length, if◌then◌else◌, ◌≡◌, refl, sym, ap, ◌∙◌, Bool-cases, inl, inr,
}
use dgx_spark_llm_platform.Base.Text.{Text, text_eq, text_eq_sound, text_eq_refl}
use dgx_spark_llm_platform.Decisions.Value.{Json}
use dgx_spark_llm_platform.Messages.{ChatMsg}
use dgx_spark_llm_platform.Files.{Thread, read_message, walk_thread}
use dgx_spark_llm_platform.Files.Changes.{Artifact}
use dgx_spark_llm_platform.Files.Built.{read_message-Built}
use dgx_spark_llm_platform.Files.Names.{find_key}
use dgx_spark_llm_platform.Files.Maps.{
  FileEntry, Files, FileVersion, Versions, or_no_version, is_same_last, add_version, add_versions,
  versions_from,
}
use dgx_spark_llm_platform.Files.Keys.{find_key-set, IsMap, Built-IsMap}

-- The content of the last version, where there is one.
unfoldable pub last_content : List FileVersion → Option Text
last_content [] = none
last_content (v ∷ []) = some v.content
last_content (v ∷ w ∷ list) = last_content (w ∷ list)

pub last_content-append :
    (list : List FileVersion) (v : FileVersion) → last_content (list ++ v ∷ []) ≡ some v.content
unfolding last_content
last_content-append [] v = refl
last_content-append (u ∷ []) v = refl
last_content-append (u ∷ w ∷ list) v = last_content-append (w ∷ list) v

unfoldable pub has_content : Option Text → Text → Bool
unfolding text_eq
has_content none content = false
has_content (some c) content = text_eq c content

is_same_last-has_content :
    (list : List FileVersion) (content : Text)
    → is_same_last list content ≡ has_content (last_content list) content
unfolding is_same_last last_content has_content
is_same_last-has_content [] content = refl
is_same_last-has_content (v ∷ []) content = refl
is_same_last-has_content (v ∷ w ∷ list) content = is_same_last-has_content (w ∷ list) content

-- What a file has been, one entry for each message: a version for each content that is not the one
-- before it, with the index of its message and the language the file has there.
unfoldable pub content_changes : Option Text → ℕ → List (Option FileEntry) → List FileVersion
unfolding has_content
content_changes last index [] = []
content_changes last index (none ∷ states) = content_changes last (suc index) states
content_changes last index (some f ∷ states) =
    let same = content_changes last (suc index) states in
    let changed = content_changes (some f.content) (suc index) states in
    if has_content last f.content
    then same
    else record { index = index; content = f.content; lang = f.lang } ∷ changed

abbrev pub versions_of : Text → Versions → List FileVersion
versions_of name out = or_no_version (find_key name out)

with_entry : ℕ → Option FileEntry → List FileVersion → List FileVersion
with_entry index none list = list
with_entry index (some f) list =
    if is_same_last list f.content
    then list
    else list ++ record { index = index; content = f.content; lang = f.lang } ∷ []

versions_of-add_version_self :
    (index : ℕ) (name : Text) (f : FileEntry) (out : Versions)
    → versions_of name (add_version index name f out)
      ≡ with_entry index (some f) (versions_of name out)
unfolding add_version or_no_version with_entry
versions_of-add_version_self index name f out =
    elim (Bool-cases (is_same_last (versions_of name out) f.content)) [
      | inl e ↦ rw e refl
      | inr e ↦ rw e (rw (find_key-set name name _ out, text_eq_refl name) refl)
    ]

versions_of-add_version :
    (index : ℕ) (name : Text) (f : FileEntry) (out : Versions) (n : Text)
    → versions_of n (add_version index name f out) ≡ (
        if text_eq name n then with_entry index (some f) (versions_of n out) else versions_of n out)
unfolding add_version or_no_version with_entry
versions_of-add_version index name f out n = elim (Bool-cases (text_eq name n)) [
  | inl s ↦ rw s (
      subst
        (λ k.
          versions_of k (add_version index name f out)
          ≡ with_entry index (some f) (versions_of k out))
        (text_eq_sound name n s) (versions_of-add_version_self index name f out))
  | inr s ↦ rw s (elim (Bool-cases (is_same_last (versions_of name out) f.content)) [
    | inl e ↦ rw e refl
    | inr e ↦ rw e (rw (find_key-set n name _ out, s) refl)
  ])
]

versions_of-add_versions :
    (index : ℕ) (files : Files) (out : Versions) (n : Text)
    → IsMap files
    → versions_of n (add_versions index files out)
      ≡ with_entry index (find_key n files) (versions_of n out)
unfolding add_versions find_key with_entry IsMap
versions_of-add_versions index [] out n h = refl
versions_of-add_versions index ((name, f) ∷ files) out n (fresh, h) =
    versions_of-add_versions index files (add_version index name f out) n h
    ∙ ap (with_entry index (find_key n files)) (versions_of-add_version index name f out n)
    ∙ (elim (Bool-cases (text_eq name n)) [
      | inl s ↦ rw s (
          ap (λ o. with_entry index o (with_entry index (some f) (versions_of n out)))
            (subst (λ k. find_key k files ≡ none) (text_eq_sound name n s) fresh))
      | inr s ↦ rw s refl
    ])

with_entry-content_changes :
    (index : ℕ) (f : Option FileEntry) (list : List FileVersion) (states : List (Option FileEntry))
    → with_entry index f list
        ++ content_changes (last_content (with_entry index f list)) (suc index) states
      ≡ list ++ content_changes (last_content list) index (f ∷ states)
unfolding with_entry content_changes
with_entry-content_changes index none list states = refl
with_entry-content_changes index (some f) list states =
    elim (Bool-cases (is_same_last list f.content)) [
      | inl e ↦ rw (e, sym (is_same_last-has_content list f.content), e) refl
      | inr e ↦
          rw
            (
              e,
              sym (is_same_last-has_content list f.content),
              e,
              last_content-append list
                  (record { index = index; content = f.content; lang = f.lang }),
            )
            (append_assoc list (record { index = index; content = f.content; lang = f.lang } ∷ [])
              (content_changes (some f.content) (suc index) states))
    ]

pub versions_of-versions_from :
    (n : Text) (index : ℕ) (states : List Files) (out : Versions)
    → All IsMap states
    → versions_of n (versions_from index states out)
      ≡ versions_of n out
        ++ content_changes (last_content (versions_of n out)) index (map (find_key n) states)
unfolding versions_from content_changes
versions_of-versions_from n index [] out h = sym (append-nil (versions_of n out))
versions_of-versions_from n index (files ∷ states) out (valid, h) =
    versions_of-versions_from n (suc index) states (add_versions index files out) h
    ∙ ap (λ l. l ++ content_changes (last_content l) (suc index) (map (find_key n) states))
        (versions_of-add_versions index files out n valid)
    ∙ with_entry-content_changes index (find_key n files) (versions_of n out)
        (map (find_key n) states)

-- The values of a function at 0, 1 and so on.
unfoldable pub tabulate {ℓ} : {A : Type ℓ} → ℕ → (ℕ → A) → List A
tabulate zero f = []
tabulate (suc n) f = f 0 ∷ tabulate n (λ k. f (suc k))

module _ (parse : Text → Option Json)
    (parse_artifacts : Text → Text → (Text → Option Text) → List Artifact) where
  pub walk_thread-IsMap :
      (previous : Option ChatMsg) (messages : List ChatMsg) (thread : Thread)
      → IsMap thread.files
      → All IsMap ((walk_thread parse parse_artifacts previous messages thread).1)
  unfolding walk_thread
  walk_thread-IsMap previous [] thread h = tt
  walk_thread-IsMap previous (m ∷ messages) thread h =
      let next = Built-IsMap (read_message-Built parse parse_artifacts previous m thread) h in
      (
        next,
        walk_thread-IsMap (some m) messages (read_message parse parse_artifacts previous m thread)
            next,
      )

  -- What is observed behind each message is what a walk to that message ends with.
  pub walk_thread-tabulate :
      (n : Text) (previous : Option ChatMsg) (messages : List ChatMsg) (thread : Thread)
      → map (find_key n) ((walk_thread parse parse_artifacts previous messages thread).1)
        ≡ tabulate (length messages) (λ k.
          find_key n
            ((walk_thread parse parse_artifacts previous (take (suc k) messages) thread).0.files))
  unfolding walk_thread tabulate
  walk_thread-tabulate n previous [] thread = refl
  walk_thread-tabulate n previous (m ∷ messages) thread =
      let next = read_message parse parse_artifacts previous m thread in
      ap (◌∷◌ (find_key n next.files)) (walk_thread-tabulate n (some m) messages next)
