-- ===== src/Href/Tests.antt =====
-- Runs and witnesses of the links.
use dgx_spark_llm_platform.Base.{false, [], some, ◌≡◌, ◌≢◌, refl}
use dgx_spark_llm_platform.Base.Text.{codes, trim, trim_start, trim_end, is_space}
use dgx_spark_llm_platform.Href.{safe_href, safe_link, has_dangerous_scheme, span}
use dgx_spark_llm_platform.Href.Browser.{as_read}
use dgx_spark_llm_platform.Href.Safe.{safe_href_lem}

-- A line break inside the scheme does not hide it.
safe_link-hidden : safe_link (some (codes "java\nScript:alert(1)")) ≡ span
unfolding safe_link trim trim_start trim_end is_space
safe_link-hidden = refl

safe_href-plain : safe_href (some (codes " https://a.b \n")) ≡ some (codes "https://a.b")
unfolding safe_href trim trim_start trim_end is_space
safe_href-plain = refl

safe_href_lem_example :
    (codes "https://a.b" ≢ [])
    × (as_read (codes "https://a.b") ≡ codes "https://a.b")
    × (has_dangerous_scheme (as_read (codes "https://a.b")) ≡ false)
safe_href_lem_example =
    safe_href_lem (some (codes " https://a.b \n")) (codes "https://a.b") safe_href-plain
