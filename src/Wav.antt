-- ===== src/Wav.antt =====
-- The recorded sound as a file: `encodeWav` of dgx-portal-frontend/lib/audioRecorder.ts. The 16 bits
-- that a sample is stored as, which the source computes in floating point, are a parameter.
mod Tests
pub mod Reader
pub mod RoundTrip
use dgx_spark_llm_platform.Base.{ℕ, suc, ◌+◌, ◌*◌, ◌%◌, ◌/◌, List, [], ◌∷◌, ◌++◌, length, replicate}
use dgx_spark_llm_platform.Base.Text.{codes}
use dgx_spark_llm_platform.Zip.{Bytes, put, le16, le32}

-- The first 44 bytes, written over zeros: `size` is the number of bytes of the samples.
unfoldable pub write_header : ℕ → ℕ → Bytes → Bytes
unfolding put
write_header size rate a0 =
    let a1 = put 0 (codes "RIFF") a0 in
    let a2 = put 4 (le32 (36 + size)) a1 in
    let a3 = put 8 (codes "WAVE") a2 in
    let a4 = put 12 (codes "fmt ") a3 in
    let a5 = put 16 (le32 16) a4 in
    let a6 = put 20 (le16 1) a5 in
    let a7 = put 22 (le16 1) a6 in
    let a8 = put 24 (le32 rate) a7 in
    let a9 = put 28 (le32 (rate * 2)) a8 in
    let a10 = put 32 (le16 2) a9 in
    let a11 = put 34 (le16 16) a10 in let a12 = put 36 (codes "data") a11 in put 40 (le32 size) a12

module _ {S : Type 0} (quantise : S → ℕ) where
  -- The loop over the samples, from an offset on.
  unfoldable pub write_samples : ℕ → List S → Bytes → Bytes
  unfolding put
  write_samples offset [] array = array
  write_samples offset (s ∷ samples) array =
      write_samples (offset + 2) samples (put offset (le16 (quantise s)) array)

  unfoldable pub encode_wav : List S → ℕ → Bytes
  unfolding write_header write_samples
  encode_wav samples rate =
      let size = length samples * 2 in
      write_samples 44 samples (write_header size rate (replicate (44 + size) 0))

-- `WAV_RATE` of dgx-portal-frontend/lib/voiceAudio.ts
abbrev pub wav_rate : ℕ
wav_rate = 16000

-- The end of `toWav` of the same file, from the samples that its loop has computed: the same header,
-- at this rate, and a copy of the samples.
unfoldable pub to_wav : List ℕ → Bytes
unfolding encode_wav
to_wav out = encode_wav (λ v. v) out wav_rate
