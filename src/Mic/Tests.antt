-- ===== src/Mic/Tests.antt =====
-- Runs and witnesses of the listener, at a rate of 1 sample per second.
use dgx_spark_llm_platform.Base.{Bool, true, false, List, [], ◌∷◌, none, some, ◌≡◌, refl, arith}
use dgx_spark_llm_platform.Mic.{
  Frame, Mic, speech_start, speech_confirmed, speech_end, process, hear, is_speaking,
}
use dgx_spark_llm_platform.Mic.Calls.{Follows, phase, hear-Follows}
use dgx_spark_llm_platform.Mic.Bounds.{reports_end, samples_of, hear-reports_end}

abbrev voice : Frame
voice = record { samples = 1 ∷ []; loud = true }

abbrev quiet : Frame
quiet = record { samples = 0 ∷ []; loud = false }

abbrev idle : Mic
idle = record {
  muted = false;
  guard = false;
  pre = [];
  utterance = none;
  loud_time = 0;
  quiet_time = 0;
  utterance_time = 0;
  confirmed = false;
}

abbrev said : List (Bool × Frame)
said = (false, voice) ∷ (true, voice) ∷ (false, quiet) ∷ []

hear-said :
    (hear 1 said idle).1
    ≡ speech_start ∷ speech_confirmed ∷ speech_end (some (voice ∷ voice ∷ quiet ∷ [])) true ∷ []
unfolding hear
hear-said = refl

hear-Follows_example : Follows (phase idle) ((hear 1 said idle).1) (phase ((hear 1 said idle).0))
hear-Follows_example = hear-Follows 1 said idle refl

-- A muted listener drops the sentence in progress and reports nothing.
process_muted_example :
    process 1 voice (record idle { muted = true; utterance = some (voice ∷ []) })
    ≡ (record idle { muted = true }, [])
unfolding process
process_muted_example = refl

-- A sentence that has lasted for almost 30 seconds.
abbrev long : Mic
long = record idle { utterance = some (voice ∷ []); utterance_time = 29500; confirmed = true }

long-is_speaking : is_speaking long ≡ true
unfolding is_speaking
long-is_speaking = refl

hear-reports_end_example :
    reports_end ((hear 1 ((false, voice) ∷ (false, voice) ∷ []) long).1) ≡ true
unfolding samples_of
hear-reports_end_example =
    hear-reports_end 1 false voice ((false, voice) ∷ []) (voice ∷ []) long refl refl (omega arith)
