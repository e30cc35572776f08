-- ===== src/Href/Safe.antt =====
-- A link that is rendered has no dangerous scheme, as the browser reads it.
use dgx_spark_llm_platform.Base.{
  ℕ, Bool, true, false, ◌&&◌, ◌||◌, [], ◌∷◌, Option, some, leb, ◌==◌, All, ◌<◌, ◌≡◌, ◌≢◌, refl, sym,
  ap, ◌∙◌, arith, Bool-cases, inl, inr,
}
use dgx_spark_llm_platform.Base.Text.{Text, trim, trim_start, trim_end, is_blank, is_space}
use dgx_spark_llm_platform.Href.{
  is_control, strip_controls, has_dangerous_scheme, if_harmless, or_empty_text, safe_href,
}
use dgx_spark_llm_platform.Href.Browser.{drop_start, all_low, drop_end, drop_breaks, as_read}

-- Neither a control character nor a space that a browser strips, unless it is a plain space.
abbrev pub Plain : Text → Type 0
Plain = All (λ c. 0x1f < c)

strip_controls-Plain : (s : Text) → Plain (strip_controls s)
unfolding strip_controls is_control
strip_controls-Plain [] = tt
strip_controls-Plain (c ∷ s) = elim (Bool-cases (is_control c)) [
  | inl e ↦ rw e (strip_controls-Plain s)
  | inr e ↦ rw e (ground arith, strip_controls-Plain s)
]

trim_start-Plain : (s : Text) → Plain s → Plain (trim_start s)
unfolding trim_start
trim_start-Plain [] h = tt
trim_start-Plain (c ∷ s) (p, h) = elim (Bool-cases (is_space c)) [
  | inl e ↦ rw e (trim_start-Plain s h)
  | inr e ↦ rw e (p, h)
]

trim_end-Plain : (s : Text) → Plain s → Plain (trim_end s)
unfolding trim_end
trim_end-Plain [] h = tt
trim_end-Plain (c ∷ s) (p, h) = elim (Bool-cases (is_blank (c ∷ s))) [
  | inl e ↦ rw e tt
  | inr e ↦ rw e (p, trim_end-Plain s h)
]

-- No line break or tab is left.
drop_breaks-Plain : (s : Text) → Plain s → drop_breaks s ≡ s
unfolding drop_breaks
drop_breaks-Plain [] h = refl
drop_breaks-Plain (c ∷ s) (p, h) = elim (Bool-cases ((c == 9) || (c == 10) || (c == 13))) [
  | inl e ↦ absurd (ground (arith, p, e))
  | inr e ↦ rw e (ap (◌∷◌ c) (drop_breaks-Plain s h))
]

low-is_space : (c : ℕ) → 0x1f < c → leb c 0x20 ≡ true → is_space c ≡ true
unfolding is_space
low-is_space c p h = ground arith

all_low-is_blank : (s : Text) → Plain s → all_low s ≡ true → is_blank s ≡ true
unfolding all_low is_blank
all_low-is_blank [] p h = refl
all_low-is_blank (c ∷ s) (p, q) h =
    ground (arith, low-is_space c p (ground arith), all_low-is_blank s q (ground arith))

is_blank-trim_end : (s : Text) → is_blank (trim_end s) ≡ is_blank s
unfolding trim_end is_blank
is_blank-trim_end [] = refl
is_blank-trim_end (c ∷ s) = elim (Bool-cases (is_blank (c ∷ s))) [
  | inl e ↦ rw e refl
  | inr e ↦ rw e (ap (is_space c &&◌) (is_blank-trim_end s) ∙ e)
]

low_end : (c : ℕ) (s : Text) → Plain (c ∷ s) → is_blank (c ∷ s) ≡ false → all_low (c ∷ s) ≡ false
low_end c s h e = elim (Bool-cases (all_low (c ∷ s))) [
  | inl f ↦ absurd (ground (arith, e, all_low-is_blank (c ∷ s) h f))
  | inr f ↦ f
]

drop_end-trim_end : (s : Text) → Plain s → drop_end (trim_end s) ≡ trim_end s
unfolding trim_end drop_end
drop_end-trim_end [] h = refl
drop_end-trim_end (c ∷ s) (p, h) = elim (Bool-cases (is_blank (c ∷ s))) [
  | inl e ↦ rw e refl
  | inr e ↦ rw e (
      rw (low_end c (trim_end s) (p, trim_end-Plain s h) (still c s e))
        (ap (◌∷◌ c) (drop_end-trim_end s h)))
]
  where
    still : (c : ℕ) (s : Text) → is_blank (c ∷ s) ≡ false → is_blank (c ∷ trim_end s) ≡ false
    still c s e = unfold is_blank in (ap (is_space c &&◌) (is_blank-trim_end s) ∙ e)

-- The text starts with white space.
unfoldable starts_blank : Text → Bool
starts_blank [] = false
starts_blank (c ∷ s) = is_space c

starts_blank-trim_start : (s : Text) → starts_blank (trim_start s) ≡ false
unfolding starts_blank trim_start
starts_blank-trim_start [] = refl
starts_blank-trim_start (c ∷ s) = elim (Bool-cases (is_space c)) [
  | inl e ↦ rw e (starts_blank-trim_start s)
  | inr e ↦ rw e e
]

starts_blank-trim_end : (s : Text) → starts_blank s ≡ false → starts_blank (trim_end s) ≡ false
unfolding starts_blank trim_end
starts_blank-trim_end [] h = refl
starts_blank-trim_end (c ∷ s) h = elim (Bool-cases (is_blank (c ∷ s))) [
  | inl e ↦ rw e refl
  | inr e ↦ rw e h
]

drop_start-Plain : (s : Text) → Plain s → starts_blank s ≡ false → drop_start s ≡ s
unfolding drop_start starts_blank
drop_start-Plain [] p h = refl
drop_start-Plain (c ∷ s) (p, q) h = elim (Bool-cases (leb c 0x20)) [
  | inl e ↦ absurd (ground (arith, h, low-is_space c p e))
  | inr e ↦ rw e refl
]

-- What `safeHref` keeps is what the browser reads.
as_read-trim : (s : Text) → Plain s → as_read (trim s) ≡ trim s
unfolding as_read trim
as_read-trim s h =
    let starts = trim_start-Plain s h in
    let url = trim_end (trim_start s) in
    let plain = trim_end-Plain (trim_start s) starts in
    ap (λ u. drop_breaks (drop_end u))
      (drop_start-Plain url plain
        (starts_blank-trim_end (trim_start s) (starts_blank-trim_start s)))
    ∙ ap drop_breaks (drop_end-trim_end (trim_start s) starts)
    ∙ drop_breaks-Plain url plain

if_harmless_lem :
    (t url : Text)
    → if_harmless t ≡ some url
    → (t ≡ url) × (url ≢ []) × (has_dangerous_scheme url ≡ false)
unfolding if_harmless
if_harmless_lem [] url h = ground arith
if_harmless_lem (c ∷ t) url h = elim (Bool-cases (has_dangerous_scheme (c ∷ t))) [
  | inl e ↦ absurd (ground (arith, e, h))
  | inr e ↦
      let same : (c ∷ t) ≡ url = ground (arith, e, h) in
      (same, λ k. ground (arith, same, k), ap has_dangerous_scheme (sym same) ∙ e)
]

-- A URL that a link is given is not empty, and reads the same in a browser, which removes control
-- characters, tabs and line breaks from it before it looks for a scheme: its scheme, in any case, is
-- none of the four dangerous ones.
pub safe_href_lem :
    (raw : Option Text) (url : Text)
    → safe_href raw ≡ some url
    → (url ≢ []) × (as_read url ≡ url) × (has_dangerous_scheme (as_read url) ≡ false)
unfolding safe_href
safe_href_lem raw url h =
    let s = strip_controls (or_empty_text raw) in
    let (same, filled, harmless) = if_harmless_lem (trim s) url h in
    let read =
      ap as_read (sym same) ∙ as_read-trim s (strip_controls-Plain (or_empty_text raw)) ∙ same in
    (filled, read, ap has_dangerous_scheme read ∙ harmless)
