-- ===== src/Href.antt =====
-- The links of a model's answer: `safeHref` and `SafeLink` of dgx-portal-frontend/lib/markdown.tsx.
mod Tests
pub mod Browser
pub mod Safe
use dgx_spark_llm_platform.Base.{
  ℕ, Bool, true, false, not, ◌&&◌, ◌||◌, List, [], ◌∷◌, Option, none, some, leb, ◌==◌,
  if◌then◌else◌,
}
use dgx_spark_llm_platform.Base.Text.{Text, codes, trim, starts_with}
use dgx_spark_llm_platform.Rejoin.{behind_tag, is_some}

-- `[\u0000-\u001f\u007f]`
unfoldable pub is_control : ℕ → Bool
is_control c = leb c 0x1f || (c == 0x7f)

unfoldable pub strip_controls : Text → Text
unfolding is_control
strip_controls [] = []
strip_controls (c ∷ s) = let rest = strip_controls s in if is_control c then rest else c ∷ rest

-- `DANGEROUS_SCHEME`
unfoldable pub has_dangerous_scheme : Text → Bool
unfolding behind_tag is_some
has_dangerous_scheme url =
    is_some (behind_tag (codes "javascript:") url)
    || is_some (behind_tag (codes "data:") url)
    || is_some (behind_tag (codes "vbscript:") url)
    || is_some (behind_tag (codes "file:") url)

-- `raw ?? ""`
unfoldable pub or_empty_text : Option Text → Text
or_empty_text none = []
or_empty_text (some raw) = raw

-- A URL that is not empty, where its scheme is harmless.
unfoldable pub if_harmless : Text → Option Text
unfolding has_dangerous_scheme
if_harmless [] = none
if_harmless (c ∷ s) = if has_dangerous_scheme (c ∷ s) then none else some (c ∷ s)

unfoldable pub safe_href : Option Text → Option Text
unfolding if_harmless strip_controls or_empty_text
safe_href raw = if_harmless (trim (strip_controls (or_empty_text raw)))

-- What `SafeLink` renders: the text alone, or a link, which may be external.
pub data Rendered : Type 0 where
  span : Rendered
  link : Text → Bool → Rendered

-- `/^https?:\/\//i`
unfoldable pub is_external : Text → Bool
unfolding behind_tag is_some
is_external url =
    is_some (behind_tag (codes "http://") url) || is_some (behind_tag (codes "https://") url)

unfoldable pub safe_link : Option Text → Rendered
unfolding safe_href is_external
safe_link href = elim (safe_href href) [ none ↦ span | some url ↦ link url (is_external url) ]
