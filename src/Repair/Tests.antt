-- ===== src/Repair/Tests.antt =====
-- Runs of the repairs, and their theorems at one input.
use dgx_spark_llm_platform.Base.{◌++◌, true, false, [], ◌∷◌, some, ◌≡◌, ◌↔◌, refl}
use dgx_spark_llm_platform.Base.Text.{Text, codes, is_blank, is_space}
use dgx_spark_llm_platform.Repair.{
  Scan, outside, repair_closings, balance_json, trim_comma, escape_raw_control_chars,
  first_json_value, object_end,
}
use dgx_spark_llm_platform.Repair.Check.{check_run, IsBalanced, EndsEscaped}
use dgx_spark_llm_platform.Repair.Result.{repair_closings-IsBalanced_iff}
use dgx_spark_llm_platform.Repair.Balance.{balance_json-IsBalanced}
use dgx_spark_llm_platform.Repair.Escape.{
  IsClean, IsAllowed, HasNoneBehind, escape_raw_control_chars-IsClean,
}
use dgx_spark_llm_platform.Repair.Value.{first_json_value-cut}

abbrev crossed : Text
crossed = codes "{\"options\": [\"a\", \"b\"}]}"

repair_closings_run : repair_closings crossed ≡ codes "{\"options\": [\"a\", \"b\"]}"
unfolding repair_closings
repair_closings_run = refl

abbrev cut_off : Text
cut_off = codes "{\"a\": [1, \"b"

balance_json_run : balance_json cut_off ≡ codes "{\"a\": [1, \"b\"]}"
unfolding balance_json
balance_json_run = refl

-- A text cut off behind a backslash stays unbalanced: the quote that is added is escaped.
cut_escape_run : repair_closings (codes "[\"a\\") ≡ codes "[\"a\\\"]"
unfolding repair_closings
cut_escape_run = refl

first_json_value_run : first_json_value (codes "x {\"a\": \"}\"} }") ≡ some (codes "{\"a\": \"}\"}")
unfolding first_json_value
first_json_value_run = refl

object_end_run : object_end (codes "[{\"a\": {}}, {") 1 ≡ some 10
unfolding object_end
object_end_run = refl

escape_run : escape_raw_control_chars (codes "{\n\"a\nb\"}") ≡ codes "{\n\"a\\nb\"}"
unfolding escape_raw_control_chars
escape_run = refl

repair_closings-IsBalanced_iff_example :
    IsBalanced (repair_closings crossed) ↔ (¬ EndsEscaped crossed)
repair_closings-IsBalanced_iff_example = repair_closings-IsBalanced_iff crossed

abbrev in_text : Scan
in_text = record { in_string = true; escaped = false }

-- A string of two raw line breaks, the second one behind a backslash.
abbrev broken_lines : Text
broken_lines = codes "\"a" ++ b'\n' ∷ (codes "b\\" ++ b'\n' ∷ codes "\"")

escape_raw_control_chars_run :
    escape_raw_control_chars broken_lines ≡ codes "\"a\\nb\\" ++ b'\n' ∷ codes "\""
unfolding escape_raw_control_chars
escape_raw_control_chars_run = refl

balance_json-IsBalanced_example :
    IsBalanced (balance_json cut_off)
    × ((added : Text) × (balance_json cut_off ≡ trim_comma cut_off ++ added))
unfolding check_run trim_comma is_blank is_space
balance_json-IsBalanced_example = balance_json-IsBalanced cut_off in_text (codes "]}") refl refl

escape_raw_control_chars-IsClean_example :
    IsClean outside (escape_raw_control_chars broken_lines)
    × (IsAllowed outside (escape_raw_control_chars broken_lines)
        ↔ HasNoneBehind outside broken_lines)
    × (IsClean outside broken_lines → escape_raw_control_chars broken_lines ≡ broken_lines)
    × (escape_raw_control_chars (escape_raw_control_chars broken_lines)
        ≡ escape_raw_control_chars broken_lines)
escape_raw_control_chars-IsClean_example = escape_raw_control_chars-IsClean broken_lines

first_json_value-cut_example :
    first_json_value (codes "x" ++ b'{' ∷ (codes "\"a\": [1]" ++ b'}' ∷ codes "\""))
    ≡ some (b'{' ∷ (codes "\"a\": [1]" ++ b'}' ∷ []))
unfolding check_run
first_json_value-cut_example =
    first_json_value-cut (codes "x") b'{' (codes "\"a\": [1]") b'}' (codes "\"") (refl, tt) refl
      refl refl
