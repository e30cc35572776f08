-- ===== src/Zip/Records.antt =====
-- The reader on the records of one file, and what the loop over the files gathers.
use mathlib.Core.Path.{ap₂}
use dgx_spark_llm_platform.Base.{
  ℕ, zero, suc, ◌+◌, ◌<◌, ◌^◌, List, [], ◌∷◌, ◌++◌, some, ◌≡◌, refl, sym, ap, ◌∙◌, arith, length,
  take, drop, append_assoc, append-nil, length-append,
}
use dgx_spark_llm_platform.Zip.{
  Bytes, crc32, encode, local_record, central_record, File, Parts, add_file, add_files,
}
use dgx_spark_llm_platform.Zip.Layout.{
  flat, local_header, local_record_lem, central_header, central_record_lem,
}
use dgx_spark_llm_platform.Zip.Reader.{u16_at, u32_at, read_local, read_entry, le16_lem, le32_lem}

pub drop_at {ℓ} : {A : Type ℓ} (n : ℕ) (p s : List A) → n ≡ length p → drop n (p ++ s) ≡ s
drop_at zero [] s h = refl
drop_at zero (x ∷ p) s h = absurd (omega arith)
drop_at (suc n) [] s h = absurd (omega arith)
drop_at (suc n) (x ∷ p) s h = drop_at n p s (omega arith)

take_at {ℓ} : {A : Type ℓ} (n : ℕ) (p s : List A) → n ≡ length p → take n (p ++ s) ≡ p
take_at zero [] s h = refl
take_at zero (x ∷ p) s h = absurd (omega arith)
take_at (suc n) [] s h = absurd (omega arith)
take_at (suc n) (x ∷ p) s h = ap (◌∷◌ x) (take_at n p s (omega arith))

read_local_lem :
    (time date : ℕ) (name bytes rest : Bytes)
    → length name < 2 ^ 16
    → read_local (length bytes) (local_record time date name bytes ++ rest) ≡ some bytes
unfolding read_local
read_local_lem time date name bytes rest h =
    let header = local_header time date (crc32 bytes) (length bytes) (length name) in
    let size = le16_lem (length name) h in
    let whole : local_record time date name bytes ++ rest ≡ header ++ (name ++ (bytes ++ rest)) =
      ap (λ l. l ++ rest) (local_record_lem time date name bytes)
      ∙ append_assoc header (name ++ bytes) rest
      ∙ ap (λ l. header ++ l) (append_assoc name bytes rest) in
    rw whole (
      rw size (
        ap some (
          ap (take (length bytes)) (
            ap (drop (30 + length name + 0)) (sym (append_assoc header name (bytes ++ rest)))
            ∙ drop_at (30 + length name + 0) (header ++ name) (bytes ++ rest)
                (omega (arith, length-append header name)))
          ∙ take_at (length bytes) bytes rest refl)))

read_entry_step :
    (archive c name bytes : Bytes)
    → u32_at 0 c ≡ 0x02014b50
    → read_local (u32_at 20 c) (drop (u32_at 42 c) archive) ≡ some bytes
    → take (u16_at 28 c) (drop 46 c) ≡ name
    → read_entry archive c ≡ some (record { name = name; content = bytes; crc = u32_at 16 c })
unfolding read_entry
read_entry_step archive c name bytes h k l = ground arith

pub read_entry_lem :
    (archive : Bytes) (time date : ℕ) (name bytes : Bytes) (offset : ℕ) (before after rest : Bytes)
    → archive ≡ before ++ (local_record time date name bytes ++ after)
    → offset ≡ length before
    → length name < 2 ^ 16
    → length bytes < 2 ^ 32
    → offset < 2 ^ 32
    → crc32 bytes < 2 ^ 32
    → read_entry archive (central_record time date name bytes offset ++ rest)
      ≡ some (record { name = name; content = bytes; crc = crc32 bytes })
read_entry_lem archive time date name bytes offset before after rest whole at hn hb ho hc =
    let header = central_header time date (crc32 bytes) (length bytes) (length name) offset in
    let c = header ++ (name ++ rest) in
    let whole_c : central_record time date name bytes offset ++ rest ≡ c =
      ap (λ l. l ++ rest) (central_record_lem time date name bytes offset)
      ∙ append_assoc header name rest in
    let size : u32_at 20 c ≡ length bytes = le32_lem (length bytes) hb in
    let start : u32_at 42 c ≡ offset = le32_lem offset ho in
    let crc : u32_at 16 c ≡ crc32 bytes = le32_lem (crc32 bytes) hc in
    let name_size : u16_at 28 c ≡ length name = le16_lem (length name) hn in
    let found : drop offset archive ≡ local_record time date name bytes ++ after =
      ap (drop offset) whole
      ∙ drop_at offset before (local_record time date name bytes ++ after) at in
    let local : read_local (u32_at 20 c) (drop (u32_at 42 c) archive) ≡ some bytes =
      ap₂ (λ n k. read_local n (drop k archive)) size start
      ∙ ap (read_local (length bytes)) found
      ∙ read_local_lem time date name bytes after hn in
    ap (read_entry archive) whole_c
    ∙ read_entry_step archive c name bytes refl local
        (ap (λ n. take n (name ++ rest)) name_size ∙ take_at (length name) name rest refl)
    ∙ ap (λ k. some (record { name = name; content = bytes; crc = k })) crc

-- What the loop gathers, as functions of the files.
module _ (time date : ℕ) where
  abbrev pub locals_of : List File → List Bytes
  locals_of [] = []
  locals_of (f ∷ fs) = local_record time date (encode f.name) (encode f.content) ∷ locals_of fs

  abbrev pub centrals_of : List File → ℕ → List Bytes
  centrals_of [] offset = []
  centrals_of (f ∷ fs) offset =
      central_record time date (encode f.name) (encode f.content) offset
      ∷ centrals_of fs (offset + length (local_record time date (encode f.name) (encode f.content)))

  pub add_files_lem :
      (fs : List File) (p : Parts)
      → add_files time date p fs ≡ record {
        locals = p.locals ++ locals_of fs;
        centrals = p.centrals ++ centrals_of fs p.offset;
        offset = p.offset + length (flat (locals_of fs));
      }
  unfolding add_files add_file
  add_files_lem [] p =
      let l = append-nil p.locals in
      let c = append-nil p.centrals in let o : p.offset + 0 ≡ p.offset = omega arith in ground arith
  add_files_lem (f ∷ fs) p =
      let local = local_record time date (encode f.name) (encode f.content) in
      let central = central_record time date (encode f.name) (encode f.content) p.offset in
      let size : p.offset + length local + length (flat (locals_of fs))
          ≡ p.offset + length (local ++ flat (locals_of fs)) =
        omega (arith, length-append local (flat (locals_of fs))) in
      ground (
        arith,
        add_files_lem fs (add_file time date p f),
        append_assoc p.locals (local ∷ []) (locals_of fs),
        append_assoc p.centrals (central ∷ []) (centrals_of fs (p.offset + length local)),
        size,
      )
