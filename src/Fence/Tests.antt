-- ===== src/Fence/Tests.antt =====
-- Runs of the fences' functions, and their theorems at one input.
use dgx_spark_llm_platform.Base.{some, ◌≡◌, ◌↔◌, refl}
use dgx_spark_llm_platform.Base.Text.{
  Text, codes, text_eq, starts_with, trim, trim_start, trim_end, is_blank, is_space,
}
use dgx_spark_llm_platform.Fence.{
  lower, skip, skip_next, is_there, is_questions_body, is_questions_block, count_from, is_odd,
  open_code_fence, open_from, open_at, OpenFence, last_fence, or_here, cut_line, longer, first_word,
  or_text,
}
use dgx_spark_llm_platform.Fence.Opened.{IsOpenAt, open_code_fence_iff}

abbrev cut : Text
cut = codes "Voici :\n```html page\n<p>"

abbrev page : OpenFence
page = record { lang = codes "html"; body = codes "<p>"; start = 8 }

open_code_fence_run : open_code_fence cut ≡ some page
unfolding open_code_fence open_from open_at is_questions_block lower is_questions_body skip_next
    skip is_there first_word or_text last_fence or_here cut_line longer count_from is_odd text_eq
    starts_with trim trim_start trim_end is_blank is_space
open_code_fence_run = refl

open_code_fence_iff_example : (open_code_fence cut ≡ some page) ↔ IsOpenAt cut page
open_code_fence_iff_example = open_code_fence_iff cut page
