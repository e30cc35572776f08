-- ===== src/Diff/Tests.antt =====
-- Runs of the diff, and its theorems at one input.
use dgx_spark_llm_platform.Base.{
  List, [], ◌∷◌, none, ◌≡◌, refl, length, inl, inr, false, ◌≤◌, arith,
}
use dgx_spark_llm_platform.Base.Text.{Text, codes, split, join, newline, text_eq}
use dgx_spark_llm_platform.Diff.{
  DiffLine, same_line, del_line, add_line, diff_lines, diff_lists, common_start, trim_end,
  head_lines, middle, walk, fill_table, fill_row, tail_lines, diff_stats, hunks,
}
use dgx_spark_llm_platform.Diff.Sides.{old_side, new_side}
use dgx_spark_llm_platform.Diff.Reconstruct.{diff_lines-sides}
use dgx_spark_llm_platform.Diff.Minimal.{kept, diff_lines-minimal}
use dgx_spark_llm_platform.Diff.Numbers.{Numbered, diff_lines-Numbered}
use dgx_spark_llm_platform.Diff.Hunks.{visible, chosen, near, Separated, hunks_lem}

abbrev old_text : Text
old_text = codes "a\nb\nc"

abbrev new_text : Text
new_text = codes "a\nx\ny\nc"

abbrev old_new : List DiffLine
old_new =
    same_line (codes "a") 1 1
    ∷ add_line (codes "x") 2
    ∷ add_line (codes "y") 3
    ∷ del_line (codes "b") 2
    ∷ same_line (codes "c") 3 4
    ∷ []

diff_lines_run : diff_lines old_text new_text ≡ old_new
unfolding diff_lines diff_lists common_start trim_end head_lines middle walk fill_table fill_row
    tail_lines text_eq split
diff_lines_run = refl

diff_stats_run : diff_stats old_new ≡ (2, 1)
unfolding diff_stats
diff_stats_run = refl

hunks_run : hunks (diff_lines old_text old_text) 3 ≡ none ∷ []
unfolding diff_lines diff_lists common_start trim_end head_lines middle walk fill_table fill_row
    tail_lines text_eq split hunks
hunks_run = refl

diff_lines-sides_example :
    (join newline (old_side (diff_lines old_text new_text)) ≡ old_text)
    × (join newline (new_side (diff_lines old_text new_text)) ≡ new_text)
diff_lines-sides_example = diff_lines-sides old_text new_text

diff_lines-minimal_example :
    length (codes "a" ∷ codes "c" ∷ []) ≤ kept (diff_lines old_text new_text)
unfolding split
diff_lines-minimal_example =
    diff_lines-minimal old_text new_text (codes "a" ∷ codes "c" ∷ []) (omega arith)
      (inl (refl, inr (inl (refl, tt)))) (inl (refl, inr (inr (inl (refl, tt)))))

diff_lines-Numbered_example :
    Numbered 0 0
      (length (split newline old_text))
      (length (split newline new_text))
      (diff_lines old_text new_text)
diff_lines-Numbered_example = diff_lines-Numbered old_text new_text

hunks_lem_example :
    (visible (hunks old_new 0) ≡ chosen (near 0 old_new 0) old_new 0)
    × Separated false (hunks old_new 0)
hunks_lem_example = hunks_lem old_new 0
