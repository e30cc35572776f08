-- ===== src/Wav/Reader.antt =====
-- A reader of sounds, written from the format: the RIFF header of one block of 16-bit samples.
use dgx_spark_llm_platform.Base.{
  ℕ, ◌+◌, ◌*◌, Bool, ◌&&◌, List, [], ◌∷◌, Option, none, some, length, take, drop, ◌==◌,
  if◌then◌else◌,
}
use dgx_spark_llm_platform.Zip.{Bytes}
use dgx_spark_llm_platform.Zip.Reader.{u16_at, u32_at}

pub record Sound : Type 0 where
  pub rate : ℕ
  pub samples : List ℕ

-- Pairs of bytes, the low byte first.
unfoldable pub read_pairs : Bytes → List ℕ
read_pairs [] = []
read_pairs (a ∷ []) = []
read_pairs (a ∷ b ∷ bytes) = (a + 256 * b) ∷ read_pairs bytes

-- The names of the blocks, as numbers: RIFF, WAVE, fmt and data. The sizes of the file and of the
-- samples agree with the number of bytes, and the rates with one another.
unfoldable pub is_header : Bytes → Bool
is_header wav =
    (u32_at 0 wav == 0x46464952)
    && (u32_at 4 wav + 8 == length wav)
    && (u32_at 8 wav == 0x45564157)
    && (u32_at 12 wav == 0x20746d66)
    && (u32_at 16 wav == 16)
    && (u16_at 20 wav == 1)
    && (u16_at 22 wav == 1)
    && (u32_at 28 wav == u32_at 24 wav * u16_at 32 wav)
    && (u16_at 34 wav == 16)
    && (u32_at 36 wav == 0x61746164)
    && (u32_at 40 wav + 44 == length wav)

unfoldable pub read_wav : Bytes → Option Sound
unfolding is_header read_pairs
read_wav wav =
    if is_header wav
    then some
        (record { rate = u32_at 24 wav; samples = read_pairs (take (u32_at 40 wav) (drop 44 wav)) })
    else none
