-- ===== src/Diff/Stats.antt =====
-- The counters shown beside a diff.
use dgx_spark_llm_platform.Base.{◌+◌, [], ◌∷◌, List, ◌≡◌, refl, arith, length}
use dgx_spark_llm_platform.Base.Text.{Text, split, newline}
use dgx_spark_llm_platform.Diff.{DiffLine, diff_stats, diff_lines}
use dgx_spark_llm_platform.Diff.Minimal.{kept}
use dgx_spark_llm_platform.Diff.Reconstruct.{diff_lines-lists}
use dgx_spark_llm_platform.Diff.Sides.{old_side, new_side}

diff_stats-sides :
    (ls : List DiffLine)
    → ((diff_stats ls).1 + kept ls ≡ length (old_side ls))
      × ((diff_stats ls).0 + kept ls ≡ length (new_side ls))
unfolding diff_stats
diff_stats-sides [] = (refl, refl)
diff_stats-sides (l ∷ ls) = let (o, n) = diff_stats-sides ls in ground arith

-- The removed lines and the kept lines of a diff make up the lines of the old text, and the added
-- and the kept lines make up those of the new text.
pub diff_stats-diff_lines :
    (before after : Text)
    → ((diff_stats (diff_lines before after)).1 + kept (diff_lines before after)
        ≡ length (split newline before))
      × ((diff_stats (diff_lines before after)).0 + kept (diff_lines before after)
          ≡ length (split newline after))
diff_stats-diff_lines before after =
    let (o, n) = diff_stats-sides (diff_lines before after) in
    let (p, q) = diff_lines-lists before after in (rw (← p) o, rw (← q) n)
