-- ===== src/Script/Tests.antt =====
-- Runs of the depth of a script, and its theorem at one input.
use dgx_spark_llm_platform.Base.{List, [], ◌∷◌, ◌≡◌, refl, arith}
use dgx_spark_llm_platform.Base.Text.{codes, is_space}
use dgx_spark_llm_platform.Base.Int.{pos}
use dgx_spark_llm_platform.Script.{
  final_depth, run, at_end, step, step_code, step_regex, step_template, close, significant,
  starts_regex, before_regex, ends_in_word, is_word, same_depth,
}
use dgx_spark_llm_platform.Script.Pieces.{
  Piece, plain, quote, line, comment, print_all, depth_behind,
}
use dgx_spark_llm_platform.Script.Depth.{final_depth-print_all}

-- A template with an expression, and a regular expression with a bracket.
final_depth_run : final_depth (codes "f(`a${ {b:1}.b }(`, /[/{]/)") ≡ pos 0
unfolding final_depth run at_end step step_code step_regex step_template close significant
    starts_regex before_regex ends_in_word is_word same_depth is_space
final_depth_run = refl

-- A template that is not closed.
truncated_run : final_depth (codes "x = `a") ≡ pos 1
unfolding final_depth run at_end step step_code step_regex step_template close significant
    starts_regex before_regex ends_in_word is_word same_depth is_space
truncated_run = refl

abbrev script : List Piece
script =
    plain (codes "f(")
    ∷ quote b'"' (codes "}")
    ∷ plain (codes ");")
    ∷ comment (codes "{")
    ∷ line (codes "(")
    ∷ []

final_depth-print_all_example : final_depth (print_all script) ≡ depth_behind script (pos 0)
final_depth-print_all_example = final_depth-print_all script (ground arith)
