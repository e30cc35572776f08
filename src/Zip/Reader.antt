-- ===== src/Zip/Reader.antt =====
-- A reader of archives, written from the format: the end record, then the central directory, then
-- the local header of each entry.
use dgx_spark_llm_platform.Base.{
  ℕ, zero, suc, ◌+◌, ◌-◌, ◌*◌, ◌<◌, ◌^◌, ◌/◌, ◌%◌, List, [], ◌∷◌, Option, none, some, ◌≡◌, arith,
  length, get_or, take, drop, ◌==◌, if◌then◌else◌,
}
use dgx_spark_llm_platform.Zip.{Bytes}

abbrev pub u16_at : ℕ → Bytes → ℕ
u16_at i b = get_or b i 0 + 256 * get_or b (suc i) 0

abbrev pub u32_at : ℕ → Bytes → ℕ
u32_at i b = u16_at i b + 65536 * u16_at (suc (suc i)) b

-- What the reader returns for a file.
pub record Entry : Type 0 where
  pub name : Bytes
  pub content : Bytes
  pub crc : ℕ

-- The data behind the local header at the head of `local`.
unfoldable pub read_local : ℕ → Bytes → Option Bytes
read_local size local =
    if u32_at 0 local == 0x04034b50
    then some (take size (drop (30 + u16_at 26 local + u16_at 28 local) local))
    else none

unfoldable pub read_entry : Bytes → Bytes → Option Entry
read_entry archive c =
    if u32_at 0 c == 0x02014b50
    then (elim (read_local (u32_at 20 c) (drop (u32_at 42 c) archive)) [
      | none ↦ none
      | some content ↦
          some
            (record { name = take (u16_at 28 c) (drop 46 c); content = content; crc = u32_at 16 c })
    ])
    else none

-- `n` entries of the central directory, the first of them at the head of `c`.
unfoldable pub read_central : Bytes → ℕ → Bytes → Option (List Entry)
read_central archive zero c = some []
read_central archive (suc n) c = elim (read_entry archive c) [
  | none ↦ none
  | some e ↦ elim (read_central archive n (drop (46 + u16_at 28 c + u16_at 30 c + u16_at 32 c) c)) [
    | none ↦ none
    | some es ↦ some (e ∷ es)
  ]
]

unfoldable pub unzip : Bytes → Option (List Entry)
unfolding read_central read_entry read_local
unzip archive =
    let last = drop (length archive - 22) archive in
    if u32_at 0 last == 0x06054b50
    then read_central archive (u16_at 10 last) (drop (u32_at 16 last) archive)
    else none

-- Little-endian numbers are read back.
pub le16_lem : (v : ℕ) → v < 2 ^ 16 → v % 256 + 256 * (v / 256 % 256) ≡ v
le16_lem v h = omega arith

pub le32_lem :
    (v : ℕ)
    → v < 2 ^ 32
    → v % 256 + 256 * (v / 256 % 256) + 65536 * (v / 65536 % 256 + 256 * (v / 16777216 % 256)) ≡ v
le32_lem v h = omega arith
