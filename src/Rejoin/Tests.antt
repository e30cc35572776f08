-- ===== src/Rejoin/Tests.antt =====
-- Runs of the gluing, and its theorems at one input.
use dgx_spark_llm_platform.Base.{ℕ, ◌≤◌, false, ◌++◌, take, drop, ◌≡◌, ◌⊎◌, refl}
use dgx_spark_llm_platform.Base.Text.{
  Text, codes, text_eq, split, trim, trim_end, trim_start, is_blank, is_space,
}
use dgx_spark_llm_platform.Rejoin.{
  join_line, last_line, first_line, overlap, ends_with, rejoin, replaces, splice, best_match,
  best_from, keep_best, common_lines, is_better, split_lines, place_lines, opens_html, closes_html,
  found, behind_tag, lower, is_some, ends_name, closes_after, closes_tag,
}
use dgx_spark_llm_platform.Rejoin.Overlap.{join_line_lem}
use dgx_spark_llm_platform.Rejoin.Kept.{beginning, rejoin-beginning}

-- The word that the ceiling cut is not written twice.
cut_word_run : join_line (codes "a\np_del") (codes "del = 1") ≡ codes "a\np_del = 1"
unfolding join_line last_line first_line overlap ends_with text_eq is_blank is_space
cut_word_run = refl

join_line_lem_example :
    (k : ℕ) × (join_line (codes "a\np_del") (codes "del = 1")
      ≡ codes "a\np_del" ++ drop k (codes "del = 1"))
    × ((k ≡ 0)
        ⊎ ((3 ≤ k) × ((before : Text) × (codes "a\np_del" ≡ before ++ take k (codes "del = 1")))))
join_line_lem_example = join_line_lem (codes "a\np_del") (codes "del = 1")

not_replaced : replaces (codes "x = 1") (codes "y = 2") ≡ false
unfolding replaces opens_html closes_html found behind_tag lower is_some ends_name closes_after
    closes_tag trim_start is_space
not_replaced = refl

rejoin-beginning_example :
    (rest : Text) × (rejoin (codes "x = 1") (codes "y = 2") ≡ beginning (codes "x = 1") ++ rest)
rejoin-beginning_example = rejoin-beginning (codes "x = 1") (codes "y = 2") not_replaced

-- Three common lines are written once.
spliced_run :
    rejoin
      (codes
        "0\nthe first of three common lines of it\nthe second of three common lines\nthe last\n")
      (codes "the first of three common lines of it\nthe second of three common lines\nthe last\n9")
    ≡ codes
        "0\nthe first of three common lines of it\nthe second of three common lines\nthe last\n9"
unfolding rejoin replaces splice best_match best_from keep_best common_lines is_better split_lines
    place_lines split opens_html closes_html found behind_tag lower is_some ends_name closes_after
    closes_tag trim trim_end trim_start is_space is_blank text_eq
spliced_run = refl
