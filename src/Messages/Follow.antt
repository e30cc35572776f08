-- ===== src/Messages/Follow.antt =====
-- How a page follows an answer that is still being written: `usePendingFollow` of
-- dgx-portal-frontend/lib/playground-messages.ts. The timers are the caller's; what each of their
-- rounds computes is a function.
use dgx_spark_llm_platform.Base.{
  ℕ, ◌+◌, ◌-◌, Bool, true, false, not, ◌&&◌, ◌||◌, List, [], ◌∷◌, ◌++◌, Option, none, some, ◌==◌,
  if◌then◌else◌, ◌≡◌, refl, ap, ◌∙◌, arith, All, Bool-cases, inl, inr,
}
use mathlib.Core.Path.{ap₂}
use dgx_spark_llm_platform.Base.Text.{Text, text_eq, text_eq_refl, text_eq_sound}
use dgx_spark_llm_platform.Messages.{ChatMsg, Role, user, assistant, text_of, pending_max_polls}
use dgx_spark_llm_platform.Messages.Live.{LiveTurn}

-- `(live.reasoning || undefined)` and the comparison of two such values
unfoldable pub same_text : Option Text → Option Text → Bool
same_text none none = true
same_text (some a) (some b) = text_eq a b
same_text _ _ = false

abbrev pub is_assistant : Role → Bool
is_assistant user = false
is_assistant assistant = true

-- The last message, as the stream's text replaces it.
unfoldable pub follow_last : LiveTurn → ChatMsg → ChatMsg
unfolding same_text
follow_last turn m =
    if not (is_assistant m.role)
    then m
    else if text_eq m.content turn.text && same_text m.reasoning (text_of (some turn.reasoning))
    then m
    else record m { content = turn.text; reasoning = text_of (some turn.reasoning); pending = none }

-- The update of the messages that runs every 250 ms while the stream lives.
unfoldable pub follow_round : LiveTurn → List ChatMsg → List ChatMsg
unfolding follow_last
follow_round turn [] = []
follow_round turn (m ∷ []) = follow_last turn m ∷ []
follow_round turn (m ∷ n ∷ msgs) = m ∷ follow_round turn (n ∷ msgs)

-- Whether the first effect adopts the live turn: the controller that the page then holds.
unfoldable pub adopt : Bool → Option LiveTurn → Option Text → Option ℕ
unfolding same_text
adopt streaming none current = none
adopt streaming (some turn) none = none
adopt streaming (some turn) (some current) =
    if streaming || text_eq current [] || not (same_text turn.conv_id (some current))
    then none
    else some turn.controller

-- Whether the live turn is the current conversation's.
unfoldable pub followed : Option LiveTurn → Text → Bool
unfolding same_text
followed none current = false
followed (some turn) current = same_text turn.conv_id (some current)

-- The second effect: the polls left, and the conversation that is read again.
unfoldable pub poll_round : ℕ → Bool → Option LiveTurn → Option Text → ℕ × Option Text
poll_round left pending turn none = (pending_max_polls, none)
poll_round left pending turn (some current) =
    if not pending || text_eq current []
    then (pending_max_polls, none)
    else if followed turn current
    then (left, none)
    else if left == 0
    then (left, none)
    else (left - 1, some current)

same_text_sound : (r s : Option Text) → same_text r s ≡ true → r ≡ s
unfolding same_text
same_text_sound none none h = refl
same_text_sound none (some s) h = cc
same_text_sound (some r) none h = cc
same_text_sound (some r) (some s) h = ap some (text_eq_sound r s h)

same_text_refl : (r : Option Text) → same_text r r ≡ true
unfolding same_text
same_text_refl none = refl
same_text_refl (some r) = text_eq_refl r

Followed : LiveTurn → ChatMsg → Type 0
Followed turn m = (m.content ≡ turn.text) × (m.reasoning ≡ text_of (some turn.reasoning))

follow_last-Followed :
    (turn : LiveTurn) (m : ChatMsg)
    → is_assistant m.role ≡ true
    → Followed turn (follow_last turn m)
unfolding follow_last Followed
follow_last-Followed turn m h =
    elim (Bool-cases
      (text_eq m.content turn.text && same_text m.reasoning (text_of (some turn.reasoning)))) [
        | inl same ↦
            rw (h, same)
              (
                text_eq_sound m.content turn.text (ground arith),
                same_text_sound m.reasoning (text_of (some turn.reasoning)) (ground arith),
              )
        | inr other ↦ rw (h, other) (refl, refl)
      ]

follow_last_again : (turn : LiveTurn) (m : ChatMsg) → Followed turn m → follow_last turn m ≡ m
unfolding follow_last Followed
follow_last_again turn m (p, q) =
    let unchanged : (text_eq m.content turn.text
          && same_text m.reasoning (text_of (some turn.reasoning)))
        ≡ true =
      ap₂ (λ c r. text_eq c turn.text && same_text r (text_of (some turn.reasoning))) p q
      ∙ ap₂ ◌&&◌ (text_eq_refl turn.text) (same_text_refl (text_of (some turn.reasoning))) in
    rw unchanged (either (is_assistant m.role))
  where
    either : (b : Bool) → ◌≡◌ {A = ChatMsg} (if not b then m else m) m
    either true = refl
    either false = refl

follow_round-append :
    (turn : LiveTurn) (before : List ChatMsg) (m : ChatMsg)
    → follow_round turn (before ++ m ∷ []) ≡ before ++ follow_last turn m ∷ []
unfolding follow_round
follow_round-append turn [] m = refl
follow_round-append turn (b ∷ []) m = refl
follow_round-append turn (b ∷ c ∷ before) m = ap (◌∷◌ b) (follow_round-append turn (c ∷ before) m)

-- While a stream lives, a round of the page gives the answer that ends the thread the text and the
-- reasoning of the stream, leaves every message before it as it is, and does nothing when it is run
-- again on the same stream.
pub follow_round_lem :
    (turn : LiveTurn) (before : List ChatMsg) (m : ChatMsg)
    → is_assistant m.role ≡ true
    → let again = follow_round turn (before ++ m ∷ []) in
      ((m' : ChatMsg) × (again ≡ before ++ m' ∷ [])
        × (m'.content ≡ turn.text)
        × (m'.reasoning ≡ text_of (some turn.reasoning)))
      × (follow_round turn again ≡ again)
follow_round_lem turn before m h =
    let same = follow_last-Followed turn m h in
    let e = follow_round-append turn before m in
    (
      (follow_last turn m, e, (unfold Followed in same.0), (unfold Followed in same.1)),
      rw e (
          follow_round-append turn before (follow_last turn m)
          ∙ ap (λ l. before ++ l ∷ []) (follow_last_again turn (follow_last turn m) same)),
    )

-- A round of the second effect: what it reads.
pub record Round : Type 0 where
  pub pending : Bool
  pub turn : Option LiveTurn
  pub current : Text

-- The polls that a run of rounds starts, and the polls left.
abbrev pub run_polls : ℕ → List Round → ℕ × ℕ
run_polls left [] = (0, left)
run_polls left (r ∷ rounds) =
    let (left', polled) = poll_round left r.pending r.turn (some r.current) in
    let (polls, last) = run_polls left' rounds in (polls + polls_of polled, last)
  where
    polls_of : Option Text → ℕ
    polls_of none = 0
    polls_of (some id) = 1

-- The thread still ends in an unfinished answer, in an open conversation.
abbrev pub Unfinished : Round → Type 0
Unfinished r = (r.pending ≡ true) × (text_eq r.current [] ≡ false)

-- As long as the answer stays unfinished, every poll uses up one of those left: a checkpoint whose
-- stream died is read at most `pending_max_polls` times.
pub run_polls_lem :
    (left : ℕ) (rounds : List Round)
    → All Unfinished rounds
    → (run_polls left rounds).0 + (run_polls left rounds).1 ≡ left
unfolding poll_round
run_polls_lem left [] h = omega arith
run_polls_lem left (r ∷ rounds) ((p, c), h) =
    ground (arith, run_polls_lem left rounds h, run_polls_lem (left - 1) rounds h)

-- A conversation whose live stream the page adopts is not polled at the same time.
pub adopt-poll_round :
    (left : ℕ) (pending : Bool) (turn : Option LiveTurn) (current : Option Text) (controller : ℕ)
    → adopt false turn current ≡ some controller
    → (poll_round left pending turn current).1 ≡ none
unfolding adopt poll_round followed
adopt-poll_round left pending none current controller h = cc
adopt-poll_round left pending (some turn) none controller h = refl
adopt-poll_round left pending (some turn) (some current) controller h = ground arith
