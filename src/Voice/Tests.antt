-- ===== src/Voice/Tests.antt =====
-- Runs and witnesses of the sentences of an answer.
use dgx_spark_llm_platform.Base.{
  ℕ, suc, true, false, List, [], ◌∷◌, none, some, leb, ◌==◌, if◌then◌else◌, ◌≡◌, refl, inl,
}
use dgx_spark_llm_platform.Base.Text.{Text, codes, trim, trim_start, trim_end, is_space}
use dgx_spark_llm_platform.Messages.{ChatMsg, Role, user, assistant}
use dgx_spark_llm_platform.Voice.{
  Event, seen, pumped, Turn, await, begin_at, voiced, is_final, read_voiced, read_answer, watch,
  hand, pump, speak_all,
}
use dgx_spark_llm_platform.Voice.Spoken.{Covers}
use dgx_spark_llm_platform.Voice.Reading.{IsKept, last_text, sentences_of, speak_all-Covers}

abbrev stars : Text → ℕ
stars [] = 0
stars (c ∷ s) = if c == b'*' then suc (stars s) else stars s

abbrev without_stars : Text → Text
without_stars [] = []
without_stars (c ∷ s) = if c == b'*' then without_stars s else c ∷ without_stars s

-- Strong emphasis that is closed loses its marks, as in `speakable`.
abbrev closed_strong : Text → Text
closed_strong s = if leb 4 (stars s) then without_stars s else s

abbrev message : Role → Text → ChatMsg
message role content = record {
  role = role;
  content = content;
  reasoning = none;
  is_error = none;
  images = none;
  hidden = none;
  truncated = none;
  pending = none;
  file_edits = none;
}

-- A question, and its answer so far.
abbrev thread : Text → List ChatMsg
thread content = message user (codes "How?") ∷ message assistant content ∷ []

-- The answer to the first message is awaited.
abbrev start : Turn
start = record {
  await_from = some 0;
  index = none;
  cut = 0;
  queue = [];
  given = [];
  paused = false;
}

-- The dot of a number is no end of a sentence, and at the end a short sentence waits for nothing.
speak_all_run :
    sentences_of (
      speak_all closed_strong
        (seen (thread (codes "It costs 3.")) true
          ∷ seen (thread (codes "It costs 3.5 euros. Yes. And")) true
          ∷ pumped
          ∷ seen (thread (codes "It costs 3.5 euros. Yes. And then?")) false
          ∷ [])
        start)
    ≡ record { text = codes "It costs 3.5 euros."; start = 0; end = 19 }
      ∷ record { text = codes "Yes."; start = 19; end = 24 }
      ∷ record { text = codes "And then?"; start = 24; end = 34 }
      ∷ []
unfolding speak_all pump hand trim trim_start trim_end is_space
speak_all_run = refl

-- Marks that are closed behind a sentence that was cut shift the text: two characters are skipped.
skipped_run :
    sentences_of (
      speak_all closed_strong
        (seen (thread (codes "Hello there, **dear reader. Yes")) true
          ∷ seen (thread (codes "Hello there, **dear reader. Yes** it is so.")) false
          ∷ [])
        start)
    ≡ record { text = codes "Hello there, **dear reader."; start = 0; end = 27 }
      ∷ record { text = codes "es it is so."; start = 27; end = 39 }
      ∷ []
unfolding speak_all trim trim_start trim_end is_space
skipped_run = refl

-- The marks are closed in the part that still waits.
abbrev events : List Event
events = seen (thread (codes "Good morning to all. Now **wait")) true ∷ pumped ∷ []

abbrev whole : Text
whole = codes "Good morning to all. Now **wait** a bit."

speak_all-Covers_example :
    let tr = watch closed_strong (thread whole) false (speak_all closed_strong events start) in
    Covers (closed_strong whole) 0 (sentences_of tr, tr.cut)
unfolding IsKept last_text speak_all pump hand watch await begin_at voiced is_final read_voiced
    read_answer trim trim_start trim_end is_space
speak_all-Covers_example =
    speak_all-Covers closed_strong start events (thread whole) false (closed_strong whole)
      (inl (codes "Good morning to all. Now **wait", refl), tt) refl refl
      (inl (codes " Now wait a bit.", refl))
