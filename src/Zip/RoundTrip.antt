-- ===== src/Zip/RoundTrip.antt =====
-- The reader gets back what the writer was given.
use mathlib.Core.Path.{ap₂}
use dgx_spark_llm_platform.Base.{
  ℕ, suc, ◌+◌, ◌-◌, ◌<◌, ◌≤◌, ◌^◌, List, [], ◌∷◌, ◌++◌, Option, none, some, ◌≡◌, refl, sym, ap, ◌∙◌,
  arith, length, drop, ◌==◌, if◌then◌else◌, map, append_assoc, append-nil, length-append, All,
  replicate,
}
use dgx_spark_llm_platform.Zip.{
  Bytes, crc32, encode, local_record, central_record, end_record, place, total_from, File, Date,
  dos_time, dos_date, Parts, zip_files,
}
use dgx_spark_llm_platform.Zip.Crc.{crc32-lt}
use dgx_spark_llm_platform.Zip.Layout.{
  flat, local_header, local_record_lem, central_header, central_record_lem, end_record_lem,
  place_lem, total_from_lem,
}
use dgx_spark_llm_platform.Zip.Reader.{
  u16_at, u32_at, Entry, read_entry, read_central, unzip, le16_lem, le32_lem,
}
use dgx_spark_llm_platform.Zip.Records.{
  drop_at, read_entry_lem, locals_of, centrals_of, add_files_lem,
}

-- What is expected back for a file.
abbrev pub entry_of : File → Entry
entry_of f = record {
  name = encode f.name;
  content = encode f.content;
  crc = crc32 (encode f.content);
}

abbrev pub HasShortName : File → Type 0
HasShortName f = length (encode f.name) < 2 ^ 16

-- The step from one entry to the next.
central_skip :
    (time date : ℕ) (name bytes : Bytes) (offset : ℕ) (rest : Bytes)
    → length name < 2 ^ 16
    → let c = central_record time date name bytes offset ++ rest in
      drop (46 + u16_at 28 c + u16_at 30 c + u16_at 32 c) c ≡ rest
central_skip time date name bytes offset rest h =
    let header = central_header time date (crc32 bytes) (length bytes) (length name) offset in
    let c = header ++ (name ++ rest) in
    let whole : central_record time date name bytes offset ++ rest ≡ c =
      ap (λ l. l ++ rest) (central_record_lem time date name bytes offset)
      ∙ append_assoc header name rest in
    let size : u16_at 28 c ≡ length name = le16_lem (length name) h in
    ap (λ (l : Bytes). drop (46 + u16_at 28 l + u16_at 30 l + u16_at 32 l) l) whole
    ∙ ap (λ n. drop (46 + n + 0 + 0) c) size
    ∙ ap (drop (46 + length name + 0 + 0)) (sym (append_assoc header name rest))
    ∙ drop_at (46 + length name + 0 + 0) (header ++ name) rest
        (omega (arith, length-append header name))

read_central_step :
    (archive : Bytes) (n : ℕ) (c rest : Bytes) (e : Entry) (es : List Entry)
    → read_entry archive c ≡ some e
    → drop (46 + u16_at 28 c + u16_at 30 c + u16_at 32 c) c ≡ rest
    → read_central archive n rest ≡ some es
    → read_central archive (suc n) c ≡ some (e ∷ es)
unfolding read_central
read_central_step archive n c rest e es h k l =
    rw (h, read_central) (rw (ap (read_central archive n) k ∙ l, read_central) refl)

local_size :
    (time date : ℕ) (name bytes : Bytes) → length bytes ≤ length (local_record time date name bytes)
local_size time date name bytes =
    let header = local_header time date (crc32 bytes) (length bytes) (length name) in
    omega (
      arith,
      ap length (local_record_lem time date name bytes),
      length-append header (name ++ bytes),
      length-append name bytes,
    )

module _ (time date : ℕ) (archive : Bytes) where
  read_central_lem :
      (fs : List File) (offset : ℕ) (before after rest : Bytes)
      → archive ≡ before ++ (flat (locals_of time date fs) ++ after)
      → offset ≡ length before
      → offset + length (flat (locals_of time date fs)) < 2 ^ 32
      → All HasShortName fs
      → read_central archive (length fs) (flat (centrals_of time date fs offset) ++ rest)
        ≡ some (map entry_of fs)
  read_central_lem [] offset before after rest whole at fits names = unfold read_central in refl
  read_central_lem (f ∷ fs) offset before after rest whole at fits (short, names) =
      let name = encode f.name in
      let bytes = encode f.content in
      let local = local_record time date name bytes in
      let central = central_record time date name bytes offset in
      let locals = flat (locals_of time date fs) in
      let centrals = flat (centrals_of time date fs (offset + length local)) in
      let size = length-append local locals in
      let data_size = local_size time date name bytes in
      let here : archive ≡ before ++ (local ++ (locals ++ after)) =
        whole ∙ ap (λ l. before ++ l) (append_assoc local locals after) in
      let next : archive ≡ (before ++ local) ++ (locals ++ after) =
        here ∙ sym (append_assoc before local (locals ++ after)) in
      ap (read_central archive (suc (length fs))) (append_assoc central centrals rest)
      ∙ read_central_step archive (length fs) (central ++ (centrals ++ rest)) (centrals ++ rest)
          (entry_of f) (map entry_of fs)
          (read_entry_lem archive time date name bytes offset before (locals ++ after)
            (centrals ++ rest) here at short (omega (arith, size, data_size)) (omega arith)
            (crc32-lt bytes))
          (central_skip time date name bytes offset (centrals ++ rest) short)
          (read_central_lem fs (offset + length local) (before ++ local) after rest next
            (omega (arith, length-append before local)) (omega (arith, size)) names)

flat-append : (ps qs : List Bytes) → flat (ps ++ qs) ≡ flat ps ++ flat qs
flat-append [] qs = refl
flat-append (p ∷ ps) qs = rw (flat-append ps qs) (sym (append_assoc p (flat ps) (flat qs)))

length-end_record : (count size offset : ℕ) → length (end_record count size offset) ≡ 22
length-end_record count size offset = ap length (end_record_lem count size offset)

-- What `zipFiles` does with the parts.
abbrev pack : Parts → ℕ → Bytes
pack p count =
    let central_size = total_from 0 p.centrals in
    let last = end_record count central_size p.offset in
    place (p.locals ++ (p.centrals ++ last ∷ [])) 0 (replicate (p.offset + central_size + 22) 0)

pack_lem :
    (p : Parts) (count : ℕ)
    → p.offset ≡ length (flat p.locals)
    → pack p count
      ≡ flat p.locals
        ++ (flat p.centrals ++ end_record count (length (flat p.centrals)) (length (flat p.locals)))
pack_lem p count h =
    let size = total_from_lem 0 p.centrals in
    let last = end_record count (total_from 0 p.centrals) p.offset in
    let same_last : last ≡ end_record count (length (flat p.centrals)) (length (flat p.locals)) =
      ap₂ (end_record count) (size ∙ omega arith) h in
    let parts = p.locals ++ (p.centrals ++ last ∷ []) in
    let joined : flat parts ≡ flat p.locals ++ (flat p.centrals ++ last) =
      flat-append p.locals (p.centrals ++ last ∷ [])
      ∙ ap (λ l. flat p.locals ++ l)
          (flat-append p.centrals (last ∷ []) ∙ ap (λ l. flat p.centrals ++ l) (append-nil last)) in
    let fits : p.offset + total_from 0 p.centrals + 22 ≡ length (flat parts) = omega (
      arith,
      ap length joined,
      length-append (flat p.locals) (flat p.centrals ++ last),
      length-append (flat p.centrals) last,
      length-end_record count (total_from 0 p.centrals) p.offset,
      size,
    ) in
    place_lem parts [] 0 (p.offset + total_from 0 p.centrals + 22) refl fits
    ∙ joined
    ∙ ap (λ l. flat p.locals ++ (flat p.centrals ++ l)) same_last

module _ (files : List File) (date : Date) where
  abbrev locals : Bytes
  locals = flat (locals_of (dos_time date) (dos_date date) files)

  abbrev centrals : Bytes
  centrals = flat (centrals_of (dos_time date) (dos_date date) files 0)

  -- The archive is its parts, one behind the other.
  zip_files-flat :
      zip_files files date
      ≡ locals ++ (centrals ++ end_record (length files) (length centrals) (length locals))
  unfolding zip_files
  zip_files-flat =
      ap (λ p. pack p (length files))
        (add_files_lem (dos_time date) (dos_date date) files
          (record { locals = []; centrals = []; offset = 0 }))
      ∙ pack_lem
          (record {
            locals = locals_of (dos_time date) (dos_date date) files;
            centrals = centrals_of (dos_time date) (dos_date date) files 0;
            offset = 0 + length locals;
          })
          (length files) (omega arith)

-- What `unzip` does with the end record.
abbrev unzip_from : Bytes → Bytes → Option (List Entry)
unzip_from archive last =
    if u32_at 0 last == 0x06054b50
    then read_central archive (u16_at 10 last) (drop (u32_at 16 last) archive)
    else none

unzip_lem :
    (archive before : Bytes) (count size offset : ℕ)
    → archive ≡ before ++ end_record count size offset
    → count < 2 ^ 16
    → offset < 2 ^ 32
    → unzip archive ≡ read_central archive count (drop offset archive)
unfolding unzip
unzip_lem archive before count size offset whole hc ho =
    let last = end_record count size offset in
    let long = length-end_record count size offset in
    let found : drop (length archive - 22) archive ≡ last =
      ap (drop (length archive - 22)) whole
      ∙ drop_at (length archive - 22) before last
          (omega (arith, long, ap length whole, length-append before last)) in
    ap (unzip_from archive) found
    ∙ ap (unzip_from archive) (end_record_lem count size offset)
    ∙ ap₂ (λ n k. read_central archive n (drop k archive)) (le16_lem count hc) (le32_lem offset ho)

-- The archive of fewer than 2^16 files, whose names have fewer than 2^16 bytes and which is smaller
-- than 2^32 bytes, is read back by the format's rules as the names and contents of the files, in
-- order, each with its check sum.
pub unzip-zip_files :
    (files : List File) (date : Date)
    → length files < 2 ^ 16
    → All HasShortName files
    → length (zip_files files date) < 2 ^ 32
    → unzip (zip_files files date) ≡ some (map entry_of files)
unzip-zip_files files date many names fits =
    let ls = locals files date in
    let cs = centrals files date in
    let last = end_record (length files) (length cs) (length ls) in
    let archive = zip_files files date in
    let whole : archive ≡ ls ++ (cs ++ last) = zip_files-flat files date in
    let size : length ls < 2 ^ 32 = omega (arith, ap length whole, length-append ls (cs ++ last)) in
    unzip_lem archive (ls ++ cs) (length files) (length cs) (length ls)
      (whole ∙ sym (append_assoc ls cs last)) many size
    ∙ ap (read_central archive (length files))
        (ap (drop (length ls)) whole ∙ drop_at (length ls) ls (cs ++ last) refl)
    ∙ read_central_lem (dos_time date) (dos_date date) archive files 0 [] (cs ++ last) last whole
        refl (omega arith) names
