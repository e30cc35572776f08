-- ===== src/Zip.antt =====
-- The ZIP writer of the playground: dgx-portal-frontend/lib/zip.ts. Bytes are numbers below 256,
-- a `Uint8Array` is a list of them, and `setUint16`, `setUint32` and `set` overwrite from an offset.
pub mod Crc
pub mod Layout
pub mod Reader
pub mod Records
pub mod RoundTrip
mod Tests
use Prim.Native.Nat.{bit_and, bit_or, bit_xor}
use dgx_spark_llm_platform.Base.{
  ℕ, zero, suc, ◌+◌, ◌-◌, ◌*◌, ◌/◌, ◌%◌, ◌^◌, Bool, true, false, ◌&&◌, List, [], ◌∷◌, ◌++◌, Option,
  none, some, map, length, replicate, get_or, leb, ltb, ◌==◌, if◌then◌else◌,
}
use dgx_spark_llm_platform.Base.Text.{Text}

abbrev pub Bytes : Type 0
Bytes = List ℕ

-- `for (k = 0; k < 8; k++) c = c & 1 ? 0xedb88320 ^ (c >>> 1) : c >>> 1`
unfoldable pub crc_rounds : ℕ → ℕ → ℕ
crc_rounds zero c = c
crc_rounds (suc k) c = crc_rounds k (if bit_and c 1 == 1 then bit_xor 0xedb88320 (c / 2) else c / 2)

-- Entry `n` of `CRC_TABLE`.
unfoldable pub crc_entry : ℕ → ℕ
unfolding crc_rounds
crc_entry n = crc_rounds 8 n

unfoldable pub crc_from : ℕ → Bytes → ℕ
unfolding crc_entry
crc_from c [] = c
crc_from c (d ∷ bytes) =
    crc_from (bit_xor (crc_entry (bit_and (bit_xor c d) 0xff)) (c / 2 ^ 8)) bytes

unfoldable pub crc32 : Bytes → ℕ
unfolding crc_from
crc32 bytes = bit_xor (crc_from 0xffffffff bytes) 0xffffffff

-- `TextEncoder`: UTF-8, where a surrogate with no partner is U+FFFD. The first argument is a high
-- surrogate that waits for its partner.
abbrev encode_point : ℕ → Bytes
encode_point c =
    if ltb c 0x80
    then c ∷ []
    else if ltb c 0x800
    then (0xc0 + c / 64) ∷ (0x80 + c % 64) ∷ []
    else if ltb c 0x10000
    then (0xe0 + c / 4096) ∷ (0x80 + c / 64 % 64) ∷ (0x80 + c % 64) ∷ []
    else (0xf0 + c / 262144) ∷ (0x80 + c / 4096 % 64) ∷ (0x80 + c / 64 % 64) ∷ (0x80 + c % 64) ∷ []

abbrev replacement : Bytes
replacement = 0xef ∷ 0xbf ∷ 0xbd ∷ []

abbrev is_high : ℕ → Bool
is_high c = leb 0xd800 c && leb c 0xdbff

abbrev is_low : ℕ → Bool
is_low c = leb 0xdc00 c && leb c 0xdfff

-- What one code unit writes, and the high surrogate that waits behind it.
abbrev encode_unit : Option ℕ → ℕ → Bytes × Option ℕ
encode_unit none c =
    if is_high c then ([], some c) else ((if is_low c then replacement else encode_point c), none)
encode_unit (some h) c =
    if is_low c
    then (encode_point (0x10000 + (h - 0xd800) * 1024 + (c - 0xdc00)), none)
    else if is_high c
    then (replacement, some c)
    else (replacement ++ encode_point c, none)

unfoldable pub encode_from : Option ℕ → Text → Bytes
encode_from none [] = []
encode_from (some h) [] = replacement
encode_from waiting (c ∷ s) = let unit = encode_unit waiting c in unit.0 ++ encode_from (unit.1) s

unfoldable pub encode : Text → Bytes
unfolding encode_from
encode s = encode_from none s

-- `array.set(bytes, at)`. A write past the end throws in the source; none of those below does.
unfoldable pub put : ℕ → Bytes → Bytes → Bytes
put zero [] array = array
put zero (b ∷ bytes) [] = []
put zero (b ∷ bytes) (x ∷ array) = b ∷ put zero bytes array
put (suc at) bytes [] = []
put (suc at) bytes (x ∷ array) = x ∷ put at bytes array

abbrev pub le16 : ℕ → Bytes
le16 v = (v % 256) ∷ (v / 256 % 256) ∷ []

abbrev pub le32 : ℕ → Bytes
le32 v = (v % 256) ∷ (v / 256 % 256) ∷ (v / 65536 % 256) ∷ (v / 16777216 % 256) ∷ []

-- The local time of the entries; the year is not before 1980.
pub record Date : Type 0 where
  pub year : ℕ
  pub month : ℕ
  pub day : ℕ
  pub hours : ℕ
  pub minutes : ℕ
  pub seconds : ℕ

unfoldable pub dos_time : Date → ℕ
dos_time d = bit_or (bit_or (d.hours * 2 ^ 11) (d.minutes * 2 ^ 5)) (d.seconds / 2)

unfoldable pub dos_date : Date → ℕ
dos_date d = bit_or (bit_or ((d.year - 1980) * 2 ^ 9) ((d.month + 1) * 2 ^ 5)) d.day

pub record File : Type 0 where
  pub name : Text
  pub content : Text

-- A file's local header, name and data.
unfoldable pub local_record : ℕ → ℕ → Bytes → Bytes → Bytes
unfolding put
local_record time date name data_bytes =
    let a0 = replicate (30 + length name + length data_bytes) 0 in
    let a1 = put 0 (le32 0x04034b50) a0 in
    let a2 = put 4 (le16 20) a1 in
    let a3 = put 6 (le16 0x0800) a2 in
    let a4 = put 8 (le16 0) a3 in
    let a5 = put 10 (le16 time) a4 in
    let a6 = put 12 (le16 date) a5 in
    let a7 = put 14 (le32 (crc32 data_bytes)) a6 in
    let a8 = put 18 (le32 (length data_bytes)) a7 in
    let a9 = put 22 (le32 (length data_bytes)) a8 in
    let a10 = put 26 (le16 (length name)) a9 in
    let a11 = put 30 name a10 in put (30 + length name) data_bytes a11

-- A file's entry in the central directory; `offset` is where its local header stands.
unfoldable pub central_record : ℕ → ℕ → Bytes → Bytes → ℕ → Bytes
unfolding put
central_record time date name data_bytes offset =
    let a0 = replicate (46 + length name) 0 in
    let a1 = put 0 (le32 0x02014b50) a0 in
    let a2 = put 4 (le16 20) a1 in
    let a3 = put 6 (le16 20) a2 in
    let a4 = put 8 (le16 0x0800) a3 in
    let a5 = put 10 (le16 0) a4 in
    let a6 = put 12 (le16 time) a5 in
    let a7 = put 14 (le16 date) a6 in
    let a8 = put 16 (le32 (crc32 data_bytes)) a7 in
    let a9 = put 20 (le32 (length data_bytes)) a8 in
    let a10 = put 24 (le32 (length data_bytes)) a9 in
    let a11 = put 28 (le16 (length name)) a10 in
    let a12 = put 42 (le32 offset) a11 in put 46 name a12

unfoldable pub end_record : ℕ → ℕ → ℕ → Bytes
unfolding put
end_record count central_size offset =
    let a0 = replicate 22 0 in
    let a1 = put 0 (le32 0x06054b50) a0 in
    let a2 = put 8 (le16 count) a1 in
    let a3 = put 10 (le16 count) a2 in
    let a4 = put 12 (le32 central_size) a3 in put 16 (le32 offset) a4

-- What the loop over the files has gathered.
pub record Parts : Type 0 where
  pub locals : List Bytes
  pub centrals : List Bytes
  pub offset : ℕ

unfoldable pub add_file : ℕ → ℕ → Parts → File → Parts
add_file time date p f =
    let name = encode f.name in
    let data_bytes = encode f.content in
    let local = local_record time date name data_bytes in
    let central = central_record time date name data_bytes p.offset in
    record {
      locals = p.locals ++ local ∷ [];
      centrals = p.centrals ++ central ∷ [];
      offset = p.offset + length local;
    }

unfoldable pub add_files : ℕ → ℕ → Parts → List File → Parts
add_files time date p [] = p
add_files time date p (f ∷ fs) = add_files time date (add_file time date p f) fs

-- `centrals.reduce((n, c) => n + c.length, 0)`
unfoldable pub total_from : ℕ → List Bytes → ℕ
total_from n [] = n
total_from n (c ∷ cs) = total_from (n + length c) cs

-- `for (const part of …) { out.set(part, at); at += part.length; }`
unfoldable pub place : List Bytes → ℕ → Bytes → Bytes
place [] at out = out
place (part ∷ parts) at out = place parts (at + length part) (put at part out)

unfoldable pub zip_files : List File → Date → Bytes
zip_files files date =
    let p =
      add_files (dos_time date) (dos_date date) (record { locals = []; centrals = []; offset = 0 })
        files in
    let central_size = total_from 0 p.centrals in
    let last = end_record (length files) central_size p.offset in
    place (p.locals ++ (p.centrals ++ last ∷ [])) 0 (replicate (p.offset + central_size + 22) 0)
