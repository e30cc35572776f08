-- ===== src/Export.antt =====
-- The export of a conversation as Markdown: dgx-portal-frontend/lib/export.ts. The translation of
-- the interface's words is a parameter.
mod Tests
pub mod Escape
use dgx_spark_llm_platform.Base.{
  ℕ, ◌+◌, ◌/◌, Bool, true, false, List, [], ◌∷◌, ◌++◌, Option, none, some, take, ◌==◌,
  if◌then◌else◌,
}
use dgx_spark_llm_platform.Base.Text.{Text, codes, join, newline, trim}
use dgx_spark_llm_platform.Messages.{Role, user, assistant, text_of}

pub record ExportMsg : Type 0 where
  pub role : Role
  pub content : Text
  pub hidden : Bool
  pub reasoning : Option Text
  -- `reasoningMs`, where it is neither missing nor 0.
  pub duration : Option Text

pub record ExportConversation : Type 0 where
  pub title : Text
  pub model : Text
  pub messages : List ExportMsg

-- One of the replacements of `escapeHtml`, of a character by a text.
unfoldable pub replace_all : ℕ → Text → Text → Text
replace_all c by [] = []
replace_all c by (d ∷ v) = let rest = replace_all c by v in if d == c then by ++ rest else d ∷ rest

unfoldable pub escape_html : Text → Text
unfolding replace_all
escape_html v = replace_all b'"' (codes "&quot;") (
    replace_all b'>' (codes "&gt;")
      (replace_all b'<' (codes "&lt;") (replace_all b'&' (codes "&amp;") v)))

-- The first message of the user.
unfoldable pub first_user : List ExportMsg → Text
first_user [] = []
first_user (m ∷ msgs) = let rest = first_user msgs in go m.role m.content rest
  where
    go : Role → Text → Text → Text
    go user content rest = content
    go assistant content rest = rest

-- `a || b` on texts
unfoldable pub or_text : Text → Text → Text
or_text [] fallback = fallback
or_text (c ∷ s) fallback = c ∷ s

unfoldable pub conv_title_fallback : List ExportMsg → Text → Text
unfolding first_user or_text
conv_title_fallback msgs fallback = or_text (trim (take 80 (first_user msgs))) fallback

module _ (t : Text → Text) where
  -- The line that says who speaks.
  unfoldable pub speaker : Role → Text
  speaker user = codes "**" ++ t (codes "Vous :") ++ codes "**"
  speaker assistant = codes "**" ++ t (codes "Assistant :") ++ codes "**"

  unfoldable pub thinking : Option Text → Option Text → List Text
  unfolding escape_html
  thinking none duration = []
  thinking (some []) duration = []
  thinking (some (c ∷ s)) duration =
      (codes "<details><summary>"
        ++ t (82 ∷ 233 ∷ codes "flexion")
        ++ seconds duration
        ++ codes "</summary>")
      ∷ []
      ∷ escape_html (c ∷ s)
      ∷ []
      ∷ codes "</details>"
      ∷ []
      ∷ []
    where
      seconds : Option Text → Text
      seconds none = []
      seconds (some n) = codes " (" ++ n ++ codes " s)"

  unfoldable pub message_lines : ExportMsg → List Text
  unfolding speaker thinking escape_html
  message_lines m =
      if m.hidden
      then []
      else speaker m.role
        ∷ []
        ∷ (thinking m.reasoning m.duration ++ escape_html m.content ∷ [] ∷ [])

  unfoldable pub all_lines : List ExportMsg → List Text
  unfolding message_lines
  all_lines [] = []
  all_lines (m ∷ msgs) = message_lines m ++ all_lines msgs

  unfoldable pub conv_as_markdown : ExportConversation → Text
  unfolding all_lines escape_html or_text
  conv_as_markdown conv = join newline (
      (codes "# " ++ escape_html conv.title)
      ∷ []
      ∷ (b'_'
          ∷ (t (codes "Mod" ++ 232 ∷ codes "le :")
              ++ b' ' ∷ (escape_html (or_text conv.model (0x2014 ∷ [])) ++ b'_' ∷ [])))
      ∷ []
      ∷ codes "---"
      ∷ []
      ∷ all_lines conv.messages)
