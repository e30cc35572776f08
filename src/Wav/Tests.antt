-- ===== src/Wav/Tests.antt =====
-- Runs and witnesses of the sound file, with samples that are their 16 bits.
use dgx_spark_llm_platform.Base.{ℕ, List, [], ◌∷◌, some, map, length, ◌≡◌, refl, arith}
use dgx_spark_llm_platform.Wav.{encode_wav}
use dgx_spark_llm_platform.Wav.Reader.{read_wav}
use dgx_spark_llm_platform.Wav.RoundTrip.{read_wav-encode_wav}

abbrev bits : ℕ → ℕ
bits s = s

abbrev sound : List ℕ
sound = 1 ∷ 65535 ∷ []

length-encode_wav : length (encode_wav bits sound 16000) ≡ 48
unfolding encode_wav
length-encode_wav = refl

read_wav-encode_wav_example :
    read_wav (encode_wav bits sound 16000)
    ≡ some (record { rate = 16000; samples = map bits sound })
read_wav-encode_wav_example =
    read_wav-encode_wav bits sound 16000 (omega arith, (omega arith, tt)) (omega arith)
      (omega arith)
