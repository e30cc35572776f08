-- ===== src/Mic.antt =====
-- The microphone of the voice mode: `MicListener` of dgx-portal-frontend/lib/voiceAudio.ts. Whether
-- a frame is loud, which the source decides on its energy in floating point, is part of the frame;
-- times are counted exactly, in samples times 1000, and compared with milliseconds times the rate.
mod Tests
pub mod Calls
pub mod Bounds
use dgx_spark_llm_platform.Base.{
  ℕ, zero, suc, ◌+◌, ◌-◌, ◌*◌, Bool, true, false, not, ◌&&◌, ◌||◌, List, [], ◌∷◌, ◌++◌, Option,
  none, some, length, ltb, leb, ◌==◌, if◌then◌else◌,
}

-- `PREROLL_MS`, `START_MS`, `START_MS_GUARDED`, `END_SILENCE_MS`, `CONFIRM_MS`, `MIN_UTTERANCE_MS`
-- and `MAX_UTTERANCE_MS`
abbrev pub preroll_ms : ℕ
preroll_ms = 350

abbrev pub start_ms : ℕ
start_ms = 120

abbrev pub start_ms_guarded : ℕ
start_ms_guarded = 300

abbrev pub end_silence_ms : ℕ
end_silence_ms = 800

abbrev pub confirm_ms : ℕ
confirm_ms = 700

abbrev pub min_utterance_ms : ℕ
min_utterance_ms = 350

abbrev pub max_utterance_ms : ℕ
max_utterance_ms = 30000

-- A frame: its samples, and the verdict on its energy.
pub record Frame : Type 0 where
  pub samples : List ℕ
  pub loud : Bool

-- The state of the listener, with the settings that the page changes between frames.
pub record Mic : Type 0 where
  pub muted : Bool
  pub guard : Bool
  pub pre : List Frame
  pub utterance : Option (List Frame)
  pub loud_time : ℕ
  pub quiet_time : ℕ
  pub utterance_time : ℕ
  pub confirmed : Bool

pub data Call : Type 0 where
  speech_start : Call
  speech_confirmed : Call
  -- The frames of the sentence, none where it is too short, and whether it was confirmed.
  speech_end : Option (List Frame) → Bool → Call

-- The duration of a frame, in samples times 1000.
abbrev pub time_of : Frame → ℕ
time_of f = length f.samples * 1000

unfoldable pub total : List Frame → ℕ
total [] = 0
total (f ∷ fs) = total fs + length f.samples

-- `while (pre.length > 1 && …) pre.shift()`
unfoldable pub shift_pre : ℕ → List Frame → List Frame
unfolding total
shift_pre rate [] = []
shift_pre rate (f ∷ []) = f ∷ []
shift_pre rate (f ∷ g ∷ fs) =
    let rest = shift_pre rate (g ∷ fs) in
    if ltb (preroll_ms * rate) (total (f ∷ g ∷ fs) * 1000) then rest else f ∷ g ∷ fs

-- A frame while nobody speaks.
unfoldable pub waiting : ℕ → Frame → Mic → Mic × List Call
unfolding shift_pre
waiting rate frame mic =
    let pre = shift_pre rate (mic.pre ++ frame ∷ []) in
    let loud_time = if frame.loud then mic.loud_time + time_of frame else 0 in
    let needed = if mic.guard then start_ms_guarded else start_ms in
    if leb (needed * rate) loud_time
    then (
      record mic {
        pre = [];
        utterance = some pre;
        loud_time = loud_time;
        quiet_time = 0;
        utterance_time = loud_time + preroll_ms * rate;
        confirmed = false;
      },
      speech_start ∷ [],
    )
    else (record mic { pre = pre; loud_time = loud_time }, [])

-- The end of a sentence: what is reported.
unfoldable pub ending : ℕ → List Frame → ℕ → Bool → Call
ending rate chunks spoken confirmed =
    speech_end (if leb (min_utterance_ms * rate) spoken then some chunks else none) confirmed

-- A frame while somebody speaks.
unfoldable pub speaking : ℕ → Frame → List Frame → Mic → Mic × List Call
unfolding ending
speaking rate frame chunks mic =
    let chunks' = chunks ++ frame ∷ [] in
    let utterance_time = mic.utterance_time + time_of frame in
    let quiet_time = if frame.loud then 0 else mic.quiet_time + time_of frame in
    let confirms = not mic.confirmed && leb (confirm_ms * rate + quiet_time) utterance_time in
    let confirmed = mic.confirmed || confirms in
    let told = if confirms then speech_confirmed ∷ [] else [] in
    if leb (end_silence_ms * rate) quiet_time || leb (max_utterance_ms * rate) utterance_time
    then (
      record mic {
        utterance = none;
        loud_time = 0;
        quiet_time = quiet_time;
        utterance_time = utterance_time;
        confirmed = confirmed;
      },
      told ++ ending rate chunks' (utterance_time - quiet_time) confirmed ∷ [],
    )
    else (
      record mic {
        utterance = some chunks';
        quiet_time = quiet_time;
        utterance_time = utterance_time;
        confirmed = confirmed;
      },
      told,
    )

unfoldable pub by_utterance : ℕ → Frame → Option (List Frame) → Mic → Mic × List Call
unfolding waiting speaking
by_utterance rate frame none mic = waiting rate frame mic
by_utterance rate frame (some chunks) mic = speaking rate frame chunks mic

-- `process`: one frame, and the callbacks it makes, in order.
unfoldable pub process : ℕ → Frame → Mic → Mic × List Call
unfolding by_utterance
process rate frame mic =
    if mic.muted
    then (record mic { utterance = none; loud_time = 0 }, [])
    else by_utterance rate frame mic.utterance mic

-- A run of frames, each with the value that `guard` has by then, and the callbacks.
unfoldable pub hear : ℕ → List (Bool × Frame) → Mic → Mic × List Call
unfolding process
hear rate [] mic = (mic, [])
hear rate ((guard, frame) ∷ frames) mic =
    let (mic', calls) = process rate frame (record mic { guard = guard }) in
    let (last, more) = hear rate frames mic' in (last, calls ++ more)

unfoldable pub is_speaking : Mic → Bool
is_speaking mic = is_some mic.utterance
  where
    is_some : Option (List Frame) → Bool
    is_some none = false
    is_some (some chunks) = true
