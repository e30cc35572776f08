-- ===== src/Player.antt =====
-- The sound that arrives for a sentence: the loop of `speak` in `SpeechPlayer` of
-- dgx-portal-frontend/lib/voiceAudio.ts, as far as it cuts the bytes into samples. A sample is its 16
-- bits, the low byte first, as on every machine the page runs on.
mod Tests
pub mod Samples
use dgx_spark_llm_platform.Base.{ℕ, ◌+◌, ◌*◌, List, [], ◌∷◌, ◌++◌}

-- The samples of whole pairs, and the byte that is carried over.
unfoldable pub cut_pairs : List ℕ → List ℕ × List ℕ
cut_pairs [] = ([], [])
cut_pairs (a ∷ []) = ([], a ∷ [])
cut_pairs (a ∷ b ∷ bytes) =
    let (samples, carry) = cut_pairs bytes in ((a + b * 256) ∷ samples, carry)

-- The loop over what the reader gives, with the carried byte.
unfoldable pub read_samples : List ℕ → List (List ℕ) → List ℕ
unfolding cut_pairs
read_samples carry [] = []
read_samples carry (value ∷ values) =
    let (samples, rest) = cut_pairs (carry ++ value) in samples ++ read_samples rest values
