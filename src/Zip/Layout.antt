-- ===== src/Zip/Layout.antt =====
-- The records as plain lists of bytes, and the archive as their concatenation.
use dgx_spark_llm_platform.Base.{
  ℕ, zero, suc, ◌+◌, List, [], ◌∷◌, ◌++◌, ◌≡◌, refl, sym, ap, ◌∙◌, arith, length, replicate,
  append-nil, append_assoc, length-append, length-replicate,
}
use dgx_spark_llm_platform.Zip.{
  Bytes, put, le16, le32, crc32, local_record, central_record, end_record, place, total_from,
}

-- The parts of an archive, one behind the other.
abbrev pub flat : List Bytes → Bytes
flat [] = []
flat (p ∷ ps) = p ++ flat ps

pub replicate-add : (m n a : ℕ) → replicate (m + n) a ≡ replicate m a ++ replicate n a
replicate-add zero n a = ap (λ k. replicate k a) {x = 0 + n} (omega arith)
replicate-add (suc m) n a =
    ap (λ k. replicate k a) {x = suc m + n} {y = suc (m + n)} (omega arith)
    ∙ ap (◌∷◌ a) (replicate-add m n a)

put_start :
    (bytes blank rest : Bytes)
    → length blank ≡ length bytes
    → put 0 bytes (blank ++ rest) ≡ bytes ++ rest
unfolding put
put_start [] [] rest h = refl
put_start [] (x ∷ blank) rest h = absurd (omega arith)
put_start (b ∷ bytes) [] rest h = absurd (omega arith)
put_start (b ∷ bytes) (x ∷ blank) rest h = ap (◌∷◌ b) (put_start bytes blank rest (omega arith))

-- A write over `blank`, behind `before`.
pub put_at :
    (at : ℕ) (before bytes blank rest : Bytes)
    → at ≡ length before
    → length blank ≡ length bytes
    → put at bytes (before ++ (blank ++ rest)) ≡ before ++ (bytes ++ rest)
unfolding put
put_at zero [] bytes blank rest e h = put_start bytes blank rest h
put_at zero (x ∷ before) bytes blank rest e h = absurd (omega arith)
put_at (suc at) [] bytes blank rest e h = absurd (omega arith)
put_at (suc at) (x ∷ before) bytes blank rest e h =
    ap (◌∷◌ x) (put_at at before bytes blank rest (omega arith) h)

-- The fixed part of a local header.
abbrev pub local_header : ℕ → ℕ → ℕ → ℕ → ℕ → Bytes
local_header time date crc size name_length =
    le32 0x04034b50
    ++ (le16 20
        ++ (le16 0x0800
            ++ (le16 0
                ++ (le16 time
                    ++ (le16 date
                        ++ (le32 crc
                            ++ (le32 size
                                ++ (le32 size ++ (le16 name_length ++ (0 ∷ 0 ∷ []))))))))))

abbrev zeros : ℕ → Bytes
zeros n = replicate n 0

blanks : (h m n : ℕ) → zeros (h + m + n) ≡ zeros h ++ (zeros m ++ zeros n)
blanks h m n =
    replicate-add (h + m) n 0
    ∙ ap (λ l. l ++ zeros n) (replicate-add h m 0)
    ∙ append_assoc (zeros h) (zeros m) (zeros n)

pub local_record_lem :
    (time date : ℕ) (name bytes : Bytes)
    → local_record time date name bytes
      ≡ local_header time date (crc32 bytes) (length bytes) (length name) ++ (name ++ bytes)
unfolding local_record
local_record_lem time date name bytes =
    let header = local_header time date (crc32 bytes) (length bytes) (length name) in
    let n = length name in
    let m = length bytes in
    rw (blanks 30 n m) (
      ap (λ a. put (30 + n) bytes (header ++ a))
        (put_start name (replicate n 0) (replicate m 0) (length-replicate n 0))
      ∙ ap (put (30 + n) bytes) (sym (append_assoc header name (replicate m 0)))
      ∙ ap (λ r. put (30 + n) bytes ((header ++ name) ++ r)) (sym (append-nil (replicate m 0)))
      ∙ put_at (30 + n) (header ++ name) bytes (replicate m 0) []
          (omega (arith, length-append header name)) (length-replicate m 0)
      ∙ ap (λ r. (header ++ name) ++ r) (append-nil bytes)
      ∙ append_assoc header name bytes)

-- The fixed part of an entry of the central directory.
abbrev pub central_header : ℕ → ℕ → ℕ → ℕ → ℕ → ℕ → Bytes
central_header time date crc size name_length offset =
    le32 0x02014b50
    ++ (le16 20
        ++ (le16 20
            ++ (le16 0x0800
                ++ (le16 0
                    ++ (le16 time
                        ++ (le16 date
                            ++ (le32 crc
                                ++ (le32 size
                                    ++ (le32 size
                                        ++ (le16 name_length
                                            ++ (replicate 12 0 ++ le32 offset)))))))))))

pub central_record_lem :
    (time date : ℕ) (name bytes : Bytes) (offset : ℕ)
    → central_record time date name bytes offset
      ≡ central_header time date (crc32 bytes) (length bytes) (length name) offset ++ name
unfolding central_record
central_record_lem time date name bytes offset =
    let header = central_header time date (crc32 bytes) (length bytes) (length name) offset in
    let n = length name in
    rw (replicate-add 46 n 0) (
      ap (λ r. put 46 name (header ++ r)) (sym (append-nil (replicate n 0)))
      ∙ put_at 46 header name (replicate n 0) [] refl (length-replicate n 0)
      ∙ ap (λ r. header ++ r) (append-nil name))

pub end_record_lem :
    (count central_size offset : ℕ)
    → end_record count central_size offset
      ≡ le32 0x06054b50
        ++ (le16 0
            ++ (le16 0
                ++ (le16 count
                    ++ (le16 count ++ (le32 central_size ++ (le32 offset ++ (0 ∷ 0 ∷ [])))))))
unfolding end_record
end_record_lem count central_size offset = refl

-- Placing the parts over zeros joins them.
pub place_lem :
    (parts : List Bytes) (before : Bytes) (at n : ℕ)
    → at ≡ length before
    → n ≡ length (flat parts)
    → place parts at (before ++ replicate n 0) ≡ before ++ flat parts
unfolding place
place_lem [] before at n e h = let z : n ≡ 0 = h in rw z refl
place_lem (p ∷ ps) before at n e h =
    let m = length (flat ps) in
    let size : n ≡ length p + m = h ∙ length-append p (flat ps) in
    rw (size, replicate-add (length p) m 0)
      (ap (place ps (at + length p)) (
          put_at at before p (replicate (length p) 0) (replicate m 0) e
            (length-replicate (length p) 0)
          ∙ sym (append_assoc before p (replicate m 0)))
        ∙ place_lem ps (before ++ p) (at + length p) m (omega (arith, length-append before p)) refl
        ∙ append_assoc before p (flat ps))

pub total_from_lem : (n : ℕ) (cs : List Bytes) → total_from n cs ≡ n + length (flat cs)
unfolding total_from
total_from_lem n [] = omega arith
total_from_lem n (c ∷ cs) =
    omega (arith, total_from_lem (n + length c) cs, length-append c (flat cs))
