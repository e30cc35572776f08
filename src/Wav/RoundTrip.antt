-- ===== src/Wav/RoundTrip.antt =====
-- A reader of the format gives the rate and the samples back.
use mathlib.Core.Path.{subst}
use dgx_spark_llm_platform.Base.{
  ℕ, ◌+◌, ◌*◌, ◌^◌, ◌<◌, true, List, [], ◌∷◌, ◌++◌, append_assoc, map, some, length, length-append,
  replicate, take, take-length, All, ◌≡◌, refl, sym, ap, ◌∙◌, arith,
}
use dgx_spark_llm_platform.Base.Text.{codes}
use dgx_spark_llm_platform.Zip.{Bytes, put, le16, le32}
use dgx_spark_llm_platform.Zip.Layout.{put_at, replicate-add}
use dgx_spark_llm_platform.Zip.Reader.{le16_lem, le32_lem}
use dgx_spark_llm_platform.Wav.{write_header, write_samples, encode_wav}
use dgx_spark_llm_platform.Wav.Reader.{read_pairs, is_header, read_wav}

-- The header, one field after the other.
abbrev header : ℕ → ℕ → Bytes
header size rate =
    codes "RIFF"
    ++ (le32 (36 + size)
        ++ (codes "WAVE"
            ++ (codes "fmt "
                ++ (le32 16
                    ++ (le16 1
                        ++ (le16 1
                            ++ (le32 rate
                                ++ (le32 (rate * 2)
                                    ++ (le16 2 ++ (le16 16 ++ (codes "data" ++ le32 size)))))))))))

write_header_lem :
    (size rate : ℕ) (rest : Bytes)
    → write_header size rate (replicate 44 0 ++ rest) ≡ header size rate ++ rest
unfolding write_header
write_header_lem size rate rest = refl

-- The bytes of the samples.
abbrev data_of : {S : Type 0} → (S → ℕ) → List S → Bytes
data_of quantise [] = []
data_of quantise (s ∷ samples) = le16 (quantise s) ++ data_of quantise samples

module _ {S : Type 0} (quantise : S → ℕ) where
  length-data_of : (samples : List S) → length (data_of quantise samples) ≡ length samples * 2
  length-data_of [] = omega arith
  length-data_of (s ∷ samples) = omega (arith, length-data_of samples)

  write_samples_lem :
      (offset : ℕ) (samples : List S) (before : Bytes)
      → offset ≡ length before
      → write_samples quantise offset samples (before ++ replicate (length samples * 2) 0)
        ≡ before ++ data_of quantise samples
  unfolding write_samples
  write_samples_lem offset [] before h =
      ap (λ n. before ++ replicate n 0) {x = 0 * 2} {y = 0} (omega arith)
  write_samples_lem offset (s ∷ samples) before h =
      let n = length samples * 2 in
      let bytes = le16 (quantise s) in
      ap (λ a. write_samples quantise (offset + 2) samples (put offset bytes (before ++ a)))
        (ap (λ k. replicate k 0) {y = 2 + n} (omega arith) ∙ replicate-add 2 n 0)
      ∙ ap (write_samples quantise (offset + 2) samples) (
          put_at offset before bytes (replicate 2 0) (replicate n 0) h refl
          ∙ sym (append_assoc before bytes (replicate n 0)))
      ∙ write_samples_lem (offset + 2) samples (before ++ bytes)
          (omega (arith, length-append before bytes, h))
      ∙ append_assoc before bytes (data_of quantise samples)

  read_pairs-data_of :
      (samples : List S)
      → All (λ s. quantise s < 2 ^ 16) samples
      → read_pairs (data_of quantise samples) ≡ map quantise samples
  unfolding read_pairs
  read_pairs-data_of [] h = refl
  read_pairs-data_of (s ∷ samples) (p, h) =
      rw (le16_lem (quantise s) p, read_pairs-data_of samples h) refl

  encode_wav_lem :
      (samples : List S) (rate : ℕ)
      → encode_wav quantise samples rate
        ≡ header (length samples * 2) rate ++ data_of quantise samples
  unfolding encode_wav
  encode_wav_lem samples rate =
      let size = length samples * 2 in
      ap (λ a. write_samples quantise 44 samples (write_header size rate a))
        (replicate-add 44 size 0)
      ∙ ap (write_samples quantise 44 samples) (write_header_lem size rate (replicate size 0))
      ∙ write_samples_lem 44 samples (header size rate) refl

is_header_lem :
    (size rate : ℕ) (rest : Bytes)
    → length rest ≡ size
    → 36 + size < 2 ^ 32
    → rate * 2 < 2 ^ 32
    → is_header (header size rate ++ rest) ≡ true
unfolding is_header
is_header_lem size rate rest e h k = ground (
  arith,
  le32_lem (36 + size) h,
  le32_lem size (omega arith),
  le32_lem rate (omega arith),
  le32_lem (rate * 2) k,
)

-- A sound is read back, by the rules of the format, with its rate and what every sample is stored
-- as, where each of these has 16 bits, the file stays below 2^32 bytes and the rate below 2^31.
pub read_wav-encode_wav :
    {S : Type 0} (quantise : S → ℕ) (samples : List S) (rate : ℕ)
    → All (λ s. quantise s < 2 ^ 16) samples
    → 36 + length samples * 2 < 2 ^ 32
    → rate * 2 < 2 ^ 32
    → read_wav (encode_wav quantise samples rate)
      ≡ some (record { rate = rate; samples = map quantise samples })
unfolding read_wav
read_wav-encode_wav quantise samples rate all small fast =
    let size = length samples * 2 in
    let bytes = data_of quantise samples in
    let same = length-data_of quantise samples in
    subst (λ w. read_wav w ≡ some (record { rate = rate; samples = map quantise samples }))
      (sym (encode_wav_lem quantise samples rate))
      (rw (is_header_lem size rate bytes same small fast) (
        rw (le32_lem size (omega arith), le32_lem rate (omega arith))
          (ap (λ d. some (record { rate = rate; samples = read_pairs d }))
              (ap (λ n. take n bytes) (sym same) ∙ take-length bytes)
            ∙ ap (λ d. some (record { rate = rate; samples = d }))
                (read_pairs-data_of quantise samples all))))
