-- ===== src/Files/Reached.antt =====
-- What `applyEdits` reads is there.
use dgx_spark_llm_platform.Base.{
  ℕ, zero, suc, true, ◌&&◌, List, [], ◌∷◌, Option, none, some, take, get_elem?, ◌≡◌, ◌≢◌, refl,
  arith, Bool-cases, inl, inr,
}
use dgx_spark_llm_platform.Base.Text.{Text, text_eq, text_eq_refl}
use dgx_spark_llm_platform.Decisions.Value.{Json}
use dgx_spark_llm_platform.Messages.{ChatMsg}
use dgx_spark_llm_platform.Rejoin.{is_some}
use dgx_spark_llm_platform.Ask.Values.{FileEdit, parse_edits, is_filled}
use dgx_spark_llm_platform.Ask.Answerable.{IfSome}
use dgx_spark_llm_platform.Files.{
  Thread, no_file, Applied, content_or_empty, read_message, walk_thread, files_until, touch,
  touch_target, apply_key, apply_edit, apply_each, apply_edits,
}
use dgx_spark_llm_platform.Files.Names.{find_key}
use dgx_spark_llm_platform.Files.Maps.{FileEntry, Files}
use dgx_spark_llm_platform.Files.Changes.{
  Artifact, cut_at, key_of, find_suffix, filled_name, is_suffix_of,
}
use dgx_spark_llm_platform.Files.Keys.{Built, same, Built-find_key}
use dgx_spark_llm_platform.Files.Built.{read_message-Built}

touch-is_some :
    (key : Text) (f : Option FileEntry) (applied : Applied)
    → f ≢ none
    → is_some (touch key f applied) ≡ true
unfolding touch is_some
touch-is_some key none applied h = absurd (h refl)
touch-is_some key (some f) applied h = refl

touch_target-is_some :
    (e : FileEdit) (key : Text) (was now : Option FileEntry) (applied : Applied)
    → was ≢ none
    → (now ≡ none → was ≡ none)
    → is_some (touch_target e key was now applied) ≡ true
unfolding touch_target
touch_target-is_some e key none now applied h k = absurd (h refl)
touch_target-is_some e key (some target) now applied h k =
    elim (Bool-cases (is_some (cut_at e.find target.content))) [
      | inl f ↦ rw f (touch-is_some key now applied (λ n. h (k n)))
      | inr f ↦ rw f (unfold is_some in refl)
    ]

-- A key is found in a longer list.
found_behind :
    (key k : Text) (f : FileEntry) (files : Files)
    → find_key key files ≢ none
    → find_key key ((k, f) ∷ files) ≢ none
unfolding find_key
found_behind key k f files h = elim (Bool-cases (text_eq k key)) [
  | inl e ↦ rw e (ground arith)
  | inr e ↦ rw e h
]

found_first : (k : Text) (f : FileEntry) (files : Files) → find_key k ((k, f) ∷ files) ≢ none
unfolding find_key
found_first k f files = rw (text_eq_refl k) (ground arith)

weaken_found :
    (k : Text) (f : FileEntry) (files : Files) (o : Option Text)
    → IfSome (λ key. find_key key files ≢ none) o
    → IfSome (λ key. find_key key ((k, f) ∷ files) ≢ none) o
unfolding IfSome
weaken_found k f files none h = tt
weaken_found k f files (some key) h = found_behind key k f files h

find_suffix-IfSome :
    (name : Text) (files : Files)
    → IfSome (λ key. find_key key files ≢ none) (find_suffix name files)
unfolding find_suffix
find_suffix-IfSome name [] = unfold IfSome in tt
find_suffix-IfSome name ((k, f) ∷ files) = elim (Bool-cases (is_suffix_of name k)) [
  | inl e ↦ rw e (unfold IfSome in found_first k f files)
  | inr e ↦ rw e (weaken_found k f files (find_suffix name files) (find_suffix-IfSome name files))
]

filled_name-IfSome : (P : Text → Type 0) (o : Option Text) → IfSome P o → IfSome P (filled_name o)
unfolding filled_name IfSome
filled_name-IfSome P none h = tt
filled_name-IfSome P (some []) h = tt
filled_name-IfSome P (some (c ∷ s)) h = h

is_some_lem : (o : Option FileEntry) → is_some o ≡ true → o ≢ none
unfolding is_some
is_some_lem none h = ground arith
is_some_lem (some f) h = ground arith

key_of-IfSome :
    (name : Text) (files : Files) → IfSome (λ key. find_key key files ≢ none) (key_of name files)
unfolding key_of
key_of-IfSome name files = elim (Bool-cases (is_some (find_key name files) && is_filled name)) [
  | inl e ↦ rw e (unfold IfSome in is_some_lem (find_key name files) (ground (arith, e)))
  | inr e ↦ rw e (filled_name-IfSome _ (find_suffix name files) (find_suffix-IfSome name files))
]

apply_key-is_some :
    (before after : Files) (e : FileEdit) (key : Option Text) (applied : Applied)
    → Built before after
    → IfSome (λ key. find_key key before ≢ none) key
    → is_some (apply_key before after e key applied) ≡ true
unfolding apply_key IfSome
apply_key-is_some before after e none applied built h = unfold is_some in refl
apply_key-is_some before after e (some key) applied built h =
    touch_target-is_some e key (find_key key before) (find_key key after) applied h
      (Built-find_key built key)

apply_each-is_some :
    (before after : Files) (edits : List FileEdit) (applied : Option Applied)
    → Built before after
    → is_some applied ≡ true
    → is_some (apply_each before after edits applied) ≡ true
unfolding apply_each apply_edit
apply_each-is_some before after edits none built h = h
apply_each-is_some before after [] (some applied) built h = h
apply_each-is_some before after (e ∷ edits) (some applied) built h =
    apply_each-is_some before after edits _ built (
      apply_key-is_some before after e (key_of e.file before) applied built
        (key_of-IfSome e.file before))

module _ (parse : Text → Option Json)
    (parse_artifacts : Text → Text → (Text → Option Text) → List Artifact) where
  -- One more message.
  walk_more :
      (previous : Option ChatMsg) (messages : List ChatMsg) (thread : Thread) (n : ℕ)
      → Built
          ((walk_thread parse parse_artifacts previous (take n messages) thread).0).files
          ((walk_thread parse parse_artifacts previous (take (suc n) messages) thread).0).files
  unfolding walk_thread
  walk_more previous [] thread zero = same
  walk_more previous (m ∷ messages) thread zero =
      read_message-Built parse parse_artifacts previous m thread
  walk_more previous [] thread (suc n) = same
  walk_more previous (m ∷ messages) thread (suc n) =
      walk_more (some m) messages (read_message parse parse_artifacts previous m thread) n

  -- Whatever the thread and the message, `applyEdits` returns: a file that an edit names among those
  -- before the message is still there behind it.
  pub apply_edits-is_some :
      (messages : List ChatMsg) (index : ℕ)
      → is_some (apply_edits parse parse_artifacts messages index) ≡ true
  unfolding apply_edits files_until
  apply_edits-is_some messages index =
      apply_each-is_some (files_until parse parse_artifacts messages index)
        (files_until parse parse_artifacts messages (suc index))
        (parse_edits parse (content_or_empty (get_elem? messages index)))
        (some (record { touched = []; failures = [] })) (walk_more none messages no_file index)
        (unfold is_some in refl)
