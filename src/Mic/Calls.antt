-- ===== src/Mic/Calls.antt =====
-- The order of the callbacks of the listener.
use mathlib.Core.Path.{subst}
use dgx_spark_llm_platform.Base.{
  ℕ, ◌+◌, ◌*◌, Bool, true, false, not, ◌&&◌, ◌||◌, List, [], ◌∷◌, ◌++◌, Option, none, some, leb,
  if◌then◌else◌, ◌≡◌, refl, sym, ap, ◌∙◌, Bool-cases, inl, inr,
}
use dgx_spark_llm_platform.Mic.{
  Frame, Mic, Call, speech_start, speech_confirmed, speech_end, time_of, waiting, ending, speaking,
  by_utterance, process, hear, end_silence_ms, confirm_ms, max_utterance_ms, start_ms,
  start_ms_guarded,
}

-- What a page that listens to the callbacks knows.
pub data Phase : Type 0 where
  silent : Phase
  talking : Bool → Phase

-- The callbacks that lead from one phase to another: a sentence starts, is confirmed at most once,
-- and ends with the truth about its confirmation before another one starts.
pub data Follows : Phase → List Call → Phase → Type 0 where
  stop : {p : Phase} → Follows p [] p
  start :
      {cs : List Call} {q : Phase}
      → Follows (talking false) cs q
      → Follows silent (speech_start ∷ cs) q
  confirm :
      {cs : List Call} {q : Phase}
      → Follows (talking true) cs q
      → Follows (talking false) (speech_confirmed ∷ cs) q
  finish :
      {b : Bool} {sound : Option (List Frame)} {cs : List Call} {q : Phase}
      → Follows silent cs q
      → Follows (talking b) (speech_end sound b ∷ cs) q

unfoldable pub phase_at : Option (List Frame) → Bool → Phase
phase_at none confirmed = silent
phase_at (some chunks) confirmed = talking confirmed

unfoldable pub phase : Mic → Phase
unfolding phase_at
phase mic = phase_at mic.utterance mic.confirmed

Follows-append :
    {p q r : Phase} {cs ds : List Call} → Follows p cs q → Follows q ds r → Follows p (cs ++ ds) r
Follows-append stop h = h
Follows-append (start g) h = start (Follows-append g h)
Follows-append (confirm g) h = confirm (Follows-append g h)
Follows-append (finish g) h = finish (Follows-append g h)

waiting-Follows :
    (rate : ℕ) (frame : Frame) (mic : Mic)
    → mic.utterance ≡ none
    → Follows silent ((waiting rate frame mic).1) (phase ((waiting rate frame mic).0))
unfolding waiting phase
waiting-Follows rate frame mic h =
    elim (Bool-cases (
      leb ((if mic.guard then start_ms_guarded else start_ms) * rate)
        (if frame.loud then mic.loud_time + time_of frame else 0))) [
          | inl e ↦ rw e (start stop)
          | inr e ↦ rw e (rw h stop)
        ]

told-Follows :
    (c k : Bool)
    → Follows
        (talking c)
        (if not c && k then speech_confirmed ∷ [] else [])
        (talking (c || (not c && k)))
told-Follows true k = stop
told-Follows false true = confirm stop
told-Follows false false = stop

speaking-Follows :
    (rate : ℕ) (frame : Frame) (chunks : List Frame) (mic : Mic)
    → Follows
        (talking mic.confirmed)
        ((speaking rate frame chunks mic).1)
        (phase ((speaking rate frame chunks mic).0))
unfolding speaking phase ending
speaking-Follows rate frame chunks mic =
    let quiet_time = if frame.loud then 0 else mic.quiet_time + time_of frame in
    let utterance_time = mic.utterance_time + time_of frame in
    let told = told-Follows mic.confirmed (leb (confirm_ms * rate + quiet_time) utterance_time) in
    elim (Bool-cases
      (leb (end_silence_ms * rate) quiet_time || leb (max_utterance_ms * rate) utterance_time)) [
        | inl e ↦ rw e (Follows-append told (finish stop))
        | inr e ↦ rw e told
      ]

by_utterance-Follows :
    (rate : ℕ) (frame : Frame) (u : Option (List Frame)) (mic : Mic)
    → mic.utterance ≡ u
    → Follows
        (phase_at u mic.confirmed)
        ((by_utterance rate frame u mic).1)
        (phase ((by_utterance rate frame u mic).0))
unfolding phase_at by_utterance
by_utterance-Follows rate frame none mic h = waiting-Follows rate frame mic h
by_utterance-Follows rate frame (some chunks) mic h = speaking-Follows rate frame chunks mic

pub process_unmuted :
    (rate : ℕ) (frame : Frame) (mic : Mic)
    → mic.muted ≡ false
    → process rate frame mic ≡ by_utterance rate frame mic.utterance mic
unfolding process
process_unmuted rate frame mic h =
    ap
      (λ b.
        if b
        then (record mic { utterance = none; loud_time = 0 }, [])
        else by_utterance rate frame mic.utterance mic)
      h

process-Follows :
    (rate : ℕ) (frame : Frame) (mic : Mic)
    → mic.muted ≡ false
    → Follows (phase mic) ((process rate frame mic).1) (phase ((process rate frame mic).0))
unfolding phase
process-Follows rate frame mic h =
    subst (λ r. Follows (phase mic) (r.1) (phase (r.0))) (sym (process_unmuted rate frame mic h))
      (by_utterance-Follows rate frame mic.utterance mic refl)

by_utterance-muted :
    (rate : ℕ) (frame : Frame) (u : Option (List Frame)) (mic : Mic)
    → ((by_utterance rate frame u mic).0).muted ≡ mic.muted
unfolding by_utterance waiting speaking
by_utterance-muted rate frame none mic =
    elim (Bool-cases (
      leb ((if mic.guard then start_ms_guarded else start_ms) * rate)
        (if frame.loud then mic.loud_time + time_of frame else 0))) [
          | inl e ↦ rw e refl
          | inr e ↦ rw e refl
        ]
by_utterance-muted rate frame (some chunks) mic =
    elim (Bool-cases (
      leb (end_silence_ms * rate) (if frame.loud then 0 else mic.quiet_time + time_of frame)
      || leb (max_utterance_ms * rate) (mic.utterance_time + time_of frame))) [
        | inl e ↦ rw e refl
        | inr e ↦ rw e refl
      ]

-- Nothing but the page mutes the listener.
pub process-muted :
    (rate : ℕ) (frame : Frame) (mic : Mic)
    → mic.muted ≡ false
    → ((process rate frame mic).0).muted ≡ false
process-muted rate frame mic h =
    ap (λ r. (r.0).muted) (process_unmuted rate frame mic h)
    ∙ by_utterance-muted rate frame mic.utterance mic
    ∙ h

-- While it is not muted, the callbacks of the listener follow the protocol, from the phase that its
-- state stands for to the phase that its last state stands for: no sentence starts before the one
-- in progress is reported finished, a sentence is confirmed at most once, and its end tells whether
-- it was confirmed. The guard may change before every frame.
pub hear-Follows :
    (rate : ℕ) (frames : List (Bool × Frame)) (mic : Mic)
    → mic.muted ≡ false
    → Follows (phase mic) ((hear rate frames mic).1) (phase ((hear rate frames mic).0))
unfolding hear phase
hear-Follows rate [] mic h = stop
hear-Follows rate ((guard, frame) ∷ frames) mic h =
    let guarded = record mic { guard = guard } in
    Follows-append (process-Follows rate frame guarded h)
      (hear-Follows rate frames (process rate frame guarded).0 (process-muted rate frame guarded h))
