-- ===== src/Fence/Opened.antt =====
-- What `openCodeFence` finds.
use dgx_spark_llm_platform.Base.{
  ℕ, ◌+◌, Bool, true, false, [], ◌∷◌, ◌++◌, append_assoc, Option, none, some, ◌==◌, length,
  length-append, drop, ◌≡◌, refl, sym, ap, ◌∙◌, ◌↔◌, All, inl, inr, arith, Bool-cases,
}
use mathlib.Core.Path.{ap₂, subst}
use dgx_spark_llm_platform.Base.Text.{Text, codes, newline, starts_with, starts_with_sound, trim}
use dgx_spark_llm_platform.Zip.Records.{drop_at}
use dgx_spark_llm_platform.Fence.{
  fence, count_from, is_odd, open_code_fence, open_from, open_at, OpenFence, last_fence, or_here,
  cut_line, longer, first_word, or_text, closed_content, is_questions_block,
}

-- The last fence splits the text, and none starts behind its first character.
abbrev Splits : Text → ℕ → Type 0
Splits s at =
    (before : Text) × (rest : Text) × (s ≡ before ++ fence ++ rest)
    × (length before ≡ at)
    × (last_fence (codes "``" ++ rest) ≡ none)

last_fence_lem : (s : Text) (at : ℕ) → last_fence s ≡ some at → Splits s at
last_fence_lem [] at h = unfold last_fence in cc
last_fence_lem (c ∷ s) at h =
    go (last_fence s) refl (starts_with fence (c ∷ s)) refl (unfold last_fence in h)
      (λ k e. last_fence_lem s k e)
  where
    go :
        (r : Option ℕ)
        → last_fence s ≡ r
        → (here : Bool) → starts_with fence (c ∷ s) ≡ here
        → or_here r here ≡ some at
        → ((k : ℕ) → last_fence s ≡ some k → Splits s k)
        → Splits (c ∷ s) at
    go (some k) e here f g later =
        let (before, rest, w, n, l) = later k e in
        (c ∷ before, rest, ap (◌∷◌ c) w, unfold or_here in ground (arith, n), l)
    go none e true f g later =
        let (rest, w) = starts_with_sound fence (c ∷ s) f in
        ([], rest, w, unfold or_here in ground arith, ap (λ t. last_fence (drop 1 t)) (sym w) ∙ e)
    go none e false f g later = unfold or_here in absurd (ground arith)

abbrev pub HasNoBreak : Text → Type 0
HasNoBreak info = All (λ c. (c == newline) ≡ false) info

cut_line_lem :
    (s info body : Text)
    → cut_line s ≡ some (info, body)
    → (s ≡ info ++ newline ∷ body) × HasNoBreak info
unfolding cut_line
cut_line_lem [] info body h = cc
cut_line_lem (c ∷ s) info body h = elim (Bool-cases (c == newline)) [
  | inl e ↦ at_break e info (ground arith)
  | inr e ↦ go e (cut_line s) (ground arith) (λ i b k. cut_line_lem s i b k)
]
  where
    at_break :
        (c == newline) ≡ true
        → (info : Text) → ◌≡◌ {A = Option (Text × Text)} (some ([], s)) (some (info, body))
        → (c ∷ s ≡ info ++ newline ∷ body) × HasNoBreak info
    at_break e [] k = (ground arith, tt)
    at_break e (d ∷ info) k = absurd (ground arith)

    go :
        (c == newline) ≡ false
        → (r : Option (Text × Text)) → longer c r ≡ some (info, body)
        → ((i b : Text) → r ≡ some (i, b) → (s ≡ i ++ newline ∷ b) × HasNoBreak i)
        → (c ∷ s ≡ info ++ newline ∷ body) × HasNoBreak info
    go e none k later = unfold longer in cc
    go e (some (i, b)) k later =
        let (w, l) = later i b refl in
        let line : c ∷ i ≡ info = unfold longer in ground arith in
        let rest : b ≡ body = unfold longer in ground arith in
        (ap (◌∷◌ c) w ∙ ap₂ (λ l t. l ++ newline ∷ t) line rest, subst HasNoBreak line (e, l))

-- What is behind the last fence: an information line that asks no question, and the body.
abbrev pub EndsWith : Text → OpenFence → Type 0
EndsWith content f =
    (before : Text) × (info : Text) × (content ≡ before ++ (fence ++ (info ++ newline ∷ f.body)))
    × (length before ≡ f.start)
    × (last_fence (codes "``" ++ (info ++ newline ∷ f.body)) ≡ none)
    × HasNoBreak info
    × (f.lang ≡ or_text (first_word (trim info)))
    × (is_questions_block (first_word (trim info)) f.body ≡ false)

-- What the theorem says of a block that is found: it is open, and stands at the end.
abbrev pub IsOpenAt : Text → OpenFence → Type 0
IsOpenAt content f =
    (is_odd (count_from 0 content) ≡ true)
    × (closed_content content ≡ content ++ newline ∷ fence)
    × EndsWith content f

open_at_lem :
    (content before rest : Text) (f : OpenFence) (start : ℕ) (cut : Option (Text × Text))
    → content ≡ before ++ fence ++ rest
    → length before ≡ start
    → last_fence (codes "``" ++ rest) ≡ none
    → cut_line rest ≡ cut
    → open_at start cut ≡ some f
    → EndsWith content f
unfolding open_at
open_at_lem content before rest f start none w n l e h = cc
open_at_lem content before rest f start (some (info, body)) w n l e h =
    elim (Bool-cases (is_questions_block (first_word (trim info)) body)) [
      | inl asks ↦ absurd (ground arith)
      | inr file ↦
          let (parts, line) = cut_line_lem rest info body e in
          let same : body ≡ f.body = ground arith in
          let split : rest ≡ info ++ newline ∷ f.body =
            parts ∙ ap (λ b. info ++ newline ∷ b) same in
          (
            before,
            info,
            w ∙ append_assoc before fence rest ∙ ap (λ r. before ++ (fence ++ r)) split,
            ground (arith, n),
            ap (λ r. last_fence (codes "``" ++ r)) (sym split) ∙ l,
            line,
            ground arith,
            ap (is_questions_block (first_word (trim info))) (sym same) ∙ file,
          )
    ]

open_from_lem :
    (content : Text) (f : OpenFence) (r : Option ℕ)
    → last_fence content ≡ r
    → open_from content r ≡ some f
    → EndsWith content f
unfolding open_from
open_from_lem content f none e h = cc
open_from_lem content f (some start) e h =
    let (before, rest, w, n, l) = last_fence_lem content start e in
    let behind : drop (start + 3) content ≡ rest =
      ap (drop (start + 3)) w
      ∙ drop_at (start + 3) (before ++ fence) rest (omega (arith, length-append before fence, n)) in
    open_at_lem content before rest f start (cut_line (drop (start + 3) content)) w n l
      (ap cut_line (sym behind)) h

last_fence-append : (a s : Text) → last_fence s ≡ some 0 → last_fence (a ++ s) ≡ some (length a)
unfolding last_fence or_here
last_fence-append [] s h = h
last_fence-append (c ∷ a) s h = rw (last_fence-append a s h) refl

cut_line-append :
    (info body : Text) → HasNoBreak info → cut_line (info ++ newline ∷ body) ≡ some (info, body)
unfolding cut_line longer
cut_line-append [] body h = refl
cut_line-append (c ∷ info) body (h, k) = rw (h, cut_line-append info body k) refl

last_fence_first :
    (rest : Text) → last_fence (codes "``" ++ rest) ≡ none → last_fence (fence ++ rest) ≡ some 0
unfolding last_fence or_here starts_with
last_fence_first rest h = rw h refl

open_from-EndsWith :
    (content : Text) (f : OpenFence)
    → EndsWith content f
    → open_from content (last_fence content) ≡ some f
unfolding open_from open_at
open_from-EndsWith content f (before, info, w, n, l, line, lang, asks) =
    let rest = info ++ newline ∷ f.body in
    let found : last_fence content ≡ some f.start =
      ap last_fence w
      ∙ last_fence-append before (fence ++ rest) (last_fence_first rest l)
      ∙ ap some n in
    let behind : drop (f.start + 3) content ≡ rest =
      ap (drop (f.start + 3)) (w ∙ sym (append_assoc before fence rest))
      ∙ drop_at (f.start + 3) (before ++ fence) rest
          (omega (arith, length-append before fence, n)) in
    rw (found, behind, cut_line-append info f.body line, asks, sym lang) refl

-- A block is found exactly where the fences of the content are odd in number, so that
-- `closedContent` adds one, and the content is what stands before the last fence, that fence, an
-- information line without a line break, and the body, which make no block of questions; the
-- block's place is that of the fence, its body is all that stands behind the line, and its language
-- is the first word of the information line, or `text`.
pub open_code_fence_iff :
    (content : Text) (f : OpenFence) → (open_code_fence content ≡ some f) ↔ IsOpenAt content f
unfolding open_code_fence closed_content
open_code_fence_iff content f = (
  λ h. elim (Bool-cases (is_odd (count_from 0 content))) [
    | inl odd ↦ (odd, rw odd refl, open_from_lem content f (last_fence content) refl (ground arith))
    | inr even ↦ absurd (ground arith)
  ],
  λ (odd, closed, ends). rw odd (open_from-EndsWith content f ends),
)
