-- ===== src/Mic/Bounds.antt =====
-- A sentence in progress ends: after silence, and at the latest when it fills the longest sound.
use mathlib.Core.Path.{subst}
use dgx_spark_llm_platform.Base.{
  ℕ, ◌+◌, ◌*◌, Bool, true, false, not, ◌&&◌, ◌||◌, List, [], ◌∷◌, ◌++◌, some, leb, if◌then◌else◌,
  ◌≡◌, refl, sym, ap, ◌∙◌, arith, Bool-cases, inl, inr, ◌≢◌, length, ◌⊎◌, ◌≤◌,
}
use dgx_spark_llm_platform.Mic.{
  Frame, Mic, Call, speech_start, speech_confirmed, speech_end, time_of, ending, speaking,
  by_utterance, process, hear, end_silence_ms, confirm_ms, max_utterance_ms,
}
use dgx_spark_llm_platform.Mic.Calls.{process_unmuted, process-muted}

-- The samples of a run of frames.
unfoldable pub samples_of : List (Bool × Frame) → ℕ
samples_of [] = 0
samples_of ((guard, frame) ∷ frames) = length frame.samples + samples_of frames

-- The end of a sentence is among the callbacks.
unfoldable pub reports_end : List Call → Bool
reports_end [] = false
reports_end (speech_end sound confirmed ∷ cs) = true
reports_end (speech_start ∷ cs) = reports_end cs
reports_end (speech_confirmed ∷ cs) = reports_end cs

reports_end-append :
    (cs ds : List Call) → reports_end (cs ++ ds) ≡ (reports_end cs || reports_end ds)
unfolding reports_end
reports_end-append [] ds = refl
reports_end-append (speech_end sound confirmed ∷ cs) ds = refl
reports_end-append (speech_start ∷ cs) ds = reports_end-append cs ds
reports_end-append (speech_confirmed ∷ cs) ds = reports_end-append cs ds

or_true : (b : Bool) → (b || true) ≡ true
or_true true = refl
or_true false = refl

or_right : (a b : Bool) → (a || b) ≡ false → b ≡ false
or_right true b h = absurd (ground arith)
or_right false b h = h

abbrev pub Ends : ℕ → ℕ → Mic × List Call → Type 0
Ends rate time (mic, calls) =
    (reports_end calls ≡ true)
    ⊎ (((chunks : List Frame) × mic.utterance ≡ some chunks)
        × mic.utterance_time ≡ time
        × leb (max_utterance_ms * rate) time ≡ false)

-- A frame while somebody speaks either ends the sentence, or leaves it in progress with the
-- duration of the frame added.
speaking_step :
    (rate : ℕ) (frame : Frame) (chunks : List Frame) (mic : Mic)
    → Ends rate (mic.utterance_time + time_of frame) (speaking rate frame chunks mic)
unfolding speaking ending reports_end
speaking_step rate frame chunks mic =
    let quiet_time = if frame.loud then 0 else mic.quiet_time + time_of frame in
    let utterance_time = mic.utterance_time + time_of frame in
    let over = leb (max_utterance_ms * rate) utterance_time in
    let told =
      if not mic.confirmed && leb (confirm_ms * rate + quiet_time) utterance_time
      then speech_confirmed ∷ []
      else [] in
    elim (Bool-cases (leb (end_silence_ms * rate) quiet_time || over)) [
      | inl e ↦ rw e (inl (reports_end-append told _ ∙ or_true (reports_end told)))
      | inr e ↦
          rw e (inr ((_, refl), refl, or_right (leb (end_silence_ms * rate) quiet_time) over e))
    ]

process_step :
    (rate : ℕ) (frame : Frame) (chunks : List Frame) (mic : Mic)
    → mic.muted ≡ false
    → mic.utterance ≡ some chunks
    → Ends rate (mic.utterance_time + time_of frame) (process rate frame mic)
unfolding by_utterance
process_step rate frame chunks mic h u =
    subst (Ends rate (mic.utterance_time + time_of frame))
      (sym (process_unmuted rate frame mic h ∙ ap (λ v. by_utterance rate frame v mic) u))
      (speaking_step rate frame chunks mic)

filled : (m u l : ℕ) → m ≤ u + (l + 0) * 1000 → leb m (u + l * 1000) ≢ false
filled m u l h e = ground arith

carried : (m u u' l r : ℕ) → u' ≡ u + l * 1000 → m ≤ u + (l + r) * 1000 → m ≤ u' + r * 1000
carried m u u' l r e h = omega arith

-- A sentence in progress is reported finished by the frame that fills the longest sound, of 30
-- seconds, whatever the frames hold: no run of frames that long, while the listener is not muted,
-- leaves it in progress without a report. The frames are at least one.
pub hear-reports_end :
    (rate : ℕ) (guard : Bool) (frame : Frame) (frames : List (Bool × Frame)) (chunks : List Frame)
    (mic : Mic)
    → mic.muted ≡ false
    → mic.utterance ≡ some chunks
    → max_utterance_ms * rate ≤ mic.utterance_time + samples_of ((guard, frame) ∷ frames) * 1000
    → reports_end ((hear rate ((guard, frame) ∷ frames) mic).1) ≡ true
unfolding hear samples_of
hear-reports_end rate guard frame [] chunks mic h u bound =
    let guarded = record mic { guard = guard } in
    reports_end-append ((process rate frame guarded).1) []
    ∙ (elim (process_step rate frame chunks guarded h u) [
      | inl e ↦ rw e refl
      | inr (c, t, e) ↦ absurd (filled _ _ (length frame.samples) bound e)
    ])
hear-reports_end rate guard frame ((guard', next) ∷ frames) chunks mic h u bound =
    let guarded = record mic { guard = guard } in
    let now = process rate frame guarded in
    reports_end-append (now.1) _ ∙ (elim (process_step rate frame chunks guarded h u) [
      | inl e ↦ rw e refl
      | inr ((some_chunks, c), t, e) ↦
          ap (λ b. reports_end (now.1) || b)
            (hear-reports_end rate guard' next frames some_chunks (now.0)
              (process-muted rate frame guarded h) c
              (carried _ _ _ (length frame.samples) _ t bound))
          ∙ or_true (reports_end (now.1))
    ])
