-- ===== src/Voice.antt =====
-- The sentences that the voice mode reads aloud: `nextSentences` of
-- dgx-portal-frontend/lib/voice-text.ts, whose matches of its regular expression do not depend on
-- the loop, and are found first; and what the effect on the answer and `pump` in
-- dgx-portal-frontend/app/(app)/playground/_components/VoiceMode.tsx do with the
-- turn that is voiced. `speakable`, which takes the markup out of a content, is a parameter.
mod Tests
pub mod Stops
pub mod Spoken
pub mod Reading
use dgx_spark_llm_platform.Base.{
  ℕ, zero, suc, ◌+◌, ◌-◌, Bool, true, false, not, ◌&&◌, ◌||◌, List, [], ◌∷◌, ◌++◌, Option, none,
  some, length, drop, slice, ltb, leb, ◌==◌, if◌then◌else◌, get_elem?,
}
use dgx_spark_llm_platform.Base.Text.{Text, trim, is_space, newline}
use dgx_spark_llm_platform.Messages.{ChatMsg}
use dgx_spark_llm_platform.Messages.Follow.{is_assistant}

pub record Sentence : Type 0 where
  pub text : Text
  pub start : ℕ
  pub end : ℕ

-- `MIN_CHARS`
abbrev pub min_chars : ℕ
min_chars = 14

-- `[.!?…]`
unfoldable pub is_mark : ℕ → Bool
is_mark c = (c == b'.') || (c == b'!') || (c == b'?') || (c == 0x2026)

-- The quotes and brackets that may close a sentence.
unfoldable pub is_closer : ℕ → Bool
is_closer c =
    (c == b'"') || (c == 0xbb) || (c == 0x201d) || (c == b'\'') || (c == b')') || (c == b']')

-- Behind the marks: the closing characters, then a space or the end. The number of characters so
-- far is given.
unfoldable pub behind_marks : ℕ → Text → Option ℕ
unfolding is_closer is_space
behind_marks n [] = some n
behind_marks n (c ∷ s) =
    let rest = behind_marks (suc n) s in
    if is_closer c then rest else if is_space c then some n else none

unfoldable pub marks : ℕ → Text → Option ℕ
unfolding is_mark behind_marks
marks n [] = behind_marks n []
marks n (c ∷ s) = let rest = marks (suc n) s in if is_mark c then rest else behind_marks n (c ∷ s)

-- The length of the match at the start.
unfoldable pub boundary : Text → Option ℕ
unfolding marks is_mark
boundary [] = none
boundary (c ∷ s) = if is_mark c then marks 1 s else if c == newline then some 1 else none

unfoldable pub and_on : ℕ → Option ℕ → (ℕ → List ℕ) → List ℕ
and_on at none go = go 0
and_on at (some n) go = (at + n) ∷ go (n - 1)

-- Where the matches end, from this place on, behind what the match before still covers.
unfoldable pub stops_from : ℕ → ℕ → Text → List ℕ
unfolding and_on boundary
stops_from at covered [] = []
stops_from at (suc covered) (c ∷ s) = stops_from (suc at) covered s
stops_from at zero (c ∷ s) = and_on at (boundary (c ∷ s)) (λ n. stops_from (suc at) n s)

-- A trimmed piece, as a sentence where it is not empty.
unfoldable pub say : Text → ℕ → ℕ → List Sentence → List Sentence
say [] start end more = more
say (c ∷ s) start end more = record { text = c ∷ s; start = start; end = end } ∷ more

-- The loop over the matches.
unfoldable pub cut_pieces : Bool → Text → ℕ → List ℕ → List Sentence × ℕ
unfolding say
cut_pieces final text start [] = ([], start)
cut_pieces final text start (stop ∷ stops) =
    let piece = slice start stop text in
    let waits = ltb (length (trim piece)) min_chars && not final in
    let (more, end) = cut_pieces final text (if waits then start else stop) stops in
    if not final && leb (length text) stop
    then ([], start)
    else if waits
    then (more, end)
    else (say (trim piece) start stop more, end)

-- What is left when the answer has ended, trimmed.
unfoldable pub say_rest : Text → Text → List Sentence × ℕ → List Sentence × ℕ
say_rest [] text (sentences, start) = (sentences, start)
say_rest (c ∷ s) text (sentences, start) =
    (sentences ++ record { text = c ∷ s; start = start; end = length text } ∷ [], length text)

unfoldable pub say_tail : Text → List Sentence × ℕ → List Sentence × ℕ
unfolding say_rest
say_tail text (sentences, start) = say_rest (trim (drop start text)) text (sentences, start)

unfoldable pub next_sentences : Text → ℕ → Bool → List Sentence × ℕ
unfolding cut_pieces stops_from say_tail
next_sentences text from final =
    let cut = cut_pieces final text from (stops_from from 0 (drop from text)) in
    if final then say_tail text cut else cut

-- The turn that is voiced: the place behind which an answer is awaited, the place of the answer, how
-- far its text has been cut, the sentences that wait for the voice and those handed to it, and
-- whether it is paused. Left out: `pumping` and `resumeAt`, which the effect does not read, and the
-- calls of the player and of the view.
pub record Turn : Type 0 where
  pub await_from : Option ℕ
  pub index : Option ℕ
  pub cut : ℕ
  pub queue : List Sentence
  pub given : List Sentence
  pub paused : Bool

abbrev pub restart : Turn → Turn
restart tr = record tr { cut = 0; queue = []; given = [] }

abbrev pub is_answer : Option ChatMsg → Bool
is_answer none = false
is_answer (some m) = is_assistant m.role

unfoldable pub begin_at : List ChatMsg → Turn → Option ℕ → Turn
begin_at messages tr none = tr
begin_at messages tr (some from) =
    if ltb (from + 1) (length messages) && is_answer (get_elem? messages (from + 1))
    then record (restart tr) { index = some (from + 1); await_from = none; paused = false }
    else tr

-- The start of the effect: the turn of an awaited answer begins once there is one.
unfoldable pub await : List ChatMsg → Turn → Turn
unfolding begin_at
await messages tr = begin_at messages tr tr.await_from

-- `m.isError`
abbrev pub has_failed : Option Bool → Bool
has_failed none = false
has_failed (some failed) = failed

-- The text that is read, or none where the effect returns.
unfoldable pub voiced : (Text → Text) → List ChatMsg → Turn → Option Text
voiced speakable messages tr = if tr.paused then none else text_at tr.index
  where
    text_of : Option ChatMsg → Option Text
    text_of none = none
    text_of (some m) =
        if not (is_assistant m.role) || has_failed m.is_error
        then none
        else some (speakable m.content)

    text_at : Option ℕ → Option Text
    text_at none = none
    text_at (some index) = text_of (get_elem? messages index)

-- `!streaming || tr.index !== messages.length - 1`
unfoldable pub is_final : List ChatMsg → Bool → Turn → Bool
is_final messages streaming tr = not streaming || not (is_last tr.index)
  where
    is_last : Option ℕ → Bool
    is_last none = false
    is_last (some index) = suc index == length messages

-- What is done with the text; the turn starts again where the text has become shorter than what was
-- cut.
unfoldable pub read_answer : Text → Bool → Turn → Turn
unfolding next_sentences
read_answer text final tr =
    let kept = if ltb (length text) tr.cut then restart tr else tr in
    let (sentences, end) = next_sentences text kept.cut final in
    record kept { cut = end; queue = kept.queue ++ sentences }

unfoldable pub read_voiced : Option Text → Bool → Turn → Turn
unfolding read_answer
read_voiced none final tr = tr
read_voiced (some text) final tr = read_answer text final tr

-- The effect.
unfoldable pub watch : (Text → Text) → List ChatMsg → Bool → Turn → Turn
unfolding await voiced is_final read_voiced
watch speakable messages streaming tr =
    let turn = await messages tr in
    read_voiced (voiced speakable messages turn) (is_final messages streaming turn) turn

-- A round of the loop of `pump`, as far as the turn: the next sentence is handed to the voice.
unfoldable pub hand : Turn → List Sentence → Turn
hand tr [] = tr
hand tr (s ∷ queue) = record tr { queue = queue; given = tr.given ++ s ∷ [] }

unfoldable pub pump : Turn → Turn
unfolding hand
pump tr = hand tr tr.queue

-- What happens to a turn: the effect runs on the messages, which may still stream, or a sentence is
-- handed on.
pub data Event : Type 0 where
  seen : List ChatMsg → Bool → Event
  pumped : Event

unfoldable pub speak_all : (Text → Text) → List Event → Turn → Turn
unfolding watch pump
speak_all speakable [] tr = tr
speak_all speakable (seen messages streaming ∷ events) tr =
    speak_all speakable events (watch speakable messages streaming tr)
speak_all speakable (pumped ∷ events) tr = speak_all speakable events (pump tr)
