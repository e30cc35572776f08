-- ===== src/Export/Tests.antt =====
-- A run of the export, and its theorem at one input.
use dgx_spark_llm_platform.Base.{true, [], none, ◌≡◌, refl, All}
use dgx_spark_llm_platform.Base.Text.{Text, codes}
use dgx_spark_llm_platform.Export.{replace_all, escape_html, message_lines}
use dgx_spark_llm_platform.Export.Escape.{IsInert, unescape, escape_html-IsInert}
use dgx_spark_llm_platform.Messages.{user}

abbrev markup : Text
markup = codes "<b>&</b>"

escape_html_run : escape_html markup ≡ codes "&lt;b&gt;&amp;&lt;/b&gt;"
unfolding escape_html replace_all
escape_html_run = refl

escape_html-IsInert_example :
    All IsInert (escape_html markup) × (unescape none (escape_html markup) ≡ markup)
escape_html-IsInert_example = escape_html-IsInert markup

hidden_run :
    message_lines
      (λ s. s)
      (record { role = user; content = markup; hidden = true; reasoning = none; duration = none })
    ≡ []
unfolding message_lines
hidden_run = refl
