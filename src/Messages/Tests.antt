-- ===== src/Messages/Tests.antt =====
-- Runs of the messages' functions, and their theorems at one input.
use dgx_spark_llm_platform.Base.{
  ◌+◌, ◌≤◌, true, false, List, [], ◌∷◌, map, Option, none, some, ◌≡◌, ◌↔◌, refl, All, replicate,
  length,
}
use dgx_spark_llm_platform.Base.Text.{
  Text, codes, split, trim, trim_end, trim_start, is_space, newline, text_eq, join,
}
use dgx_spark_llm_platform.Messages.{
  count_lines, bump, max_count, keep_recent, keep_round, keep_images, or_undefined, is_used_up,
  is_over, one_less, ChatMsg, assistant, is_looping, non_empty, tail_lines, recent_images,
  chat_images,
}
use dgx_spark_llm_platform.Messages.Looping.{count, is_looping_iff}
use dgx_spark_llm_platform.Messages.Images.{IsLatest, all_images, recent_images-IsLatest}
use dgx_spark_llm_platform.Messages.Saved.{images_kept}
use dgx_spark_llm_platform.Messages.Live.{
  LiveTurn, LiveState, begin_live_turn, get_live_turn, is_live, Call, ends, run_calls, Spares,
  begin_live_turn-run_calls,
}
use dgx_spark_llm_platform.Messages.Follow.{Round, run_polls, run_polls_lem, adopt}

abbrev line : Text
line = codes "ok"

-- Twenty times the same line.
abbrev stuck : Text
stuck = join newline (replicate {A = Text} 20 line)

is_looping_run : is_looping stuck ≡ true
unfolding is_looping tail_lines non_empty count_lines bump max_count split join trim trim_end
    trim_start is_space text_eq
is_looping_run = refl

is_looping_iff_example :
    (is_looping stuck ≡ true)
    ↔ (20 ≤ length (non_empty (map trim (split newline stuck))))
      × ((l : Text) × (8 ≤ count l (tail_lines stuck)))
is_looping_iff_example = is_looping_iff stuck

abbrev answer : Text → Option (List Text) → ChatMsg
answer content images = record {
  role = assistant;
  content = content;
  reasoning = none;
  is_error = none;
  images = images;
  hidden = none;
  truncated = some false;
  pending = none;
  file_edits = some (record { name = codes "a.py"; content = codes "1" } ∷ []);
}

abbrev thread : List ChatMsg
thread =
    answer (codes "one") (some (codes "aaa" ∷ codes "bb" ∷ []))
    ∷ answer (codes "two") none
    ∷ answer (codes "three") (some (codes "c" ∷ []))
    ∷ []

recent_images_run :
    all_images chat_images (recent_images chat_images thread (some 2) (some 10))
    ≡ codes "bb" ∷ codes "c" ∷ []
unfolding recent_images keep_recent keep_round keep_images or_undefined is_used_up is_over one_less
recent_images_run = refl

recent_images-IsLatest_example :
    IsLatest
      (some 2)
      (some 10)
      (all_images chat_images thread)
      (all_images chat_images (recent_images chat_images thread (some 2) (some 10)))
recent_images-IsLatest_example =
    recent_images-IsLatest chat_images images_kept thread (some 2) (some 10)

abbrev start_state : LiveState
start_state = record { next = 1; live = none }

abbrev calls : List Call
calls = ends 0 ∷ ends 7 ∷ []

begin_live_turn-run_calls_example :
    let (turn, begun) = begin_live_turn (some (codes "c1")) 4 start_state in
    (is_live turn (get_live_turn begun) ≡ true)
    × ((is_live turn (get_live_turn (run_calls calls begun)) ≡ true) ↔ All (Spares turn) calls)
begin_live_turn-run_calls_example =
    begin_live_turn-run_calls (some (codes "c1")) 4 start_state calls

abbrev turn : LiveTurn
turn = record { conv_id = some (codes "c1"); controller = 4; text = codes "so far"; reasoning = [] }

abbrev round : Round
round = record { pending = true; turn = none; current = codes "c1" }

run_polls_lem_example :
    (run_polls 1 (round ∷ round ∷ [])).0 + (run_polls 1 (round ∷ round ∷ [])).1 ≡ 1
run_polls_lem_example =
    run_polls_lem 1 (round ∷ round ∷ [])
      ((refl, unfold text_eq in refl), ((refl, unfold text_eq in refl), tt))

adopt_run : adopt false (some turn) (some (codes "c1")) ≡ some 4
unfolding adopt text_eq
adopt_run = refl
