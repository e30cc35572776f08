-- ===== src/Zip/Tests.antt =====
-- Runs of the ZIP writer, and its round trip at one input.
use dgx_spark_llm_platform.Base.{List, [], ◌∷◌, some, ◌≡◌, refl, arith, length, map}
use dgx_spark_llm_platform.Base.Text.{codes}
use dgx_spark_llm_platform.Zip.{
  File, Date, crc32, encode, zip_files, local_record, central_record, end_record, place, add_files,
  add_file, total_from, dos_time, dos_date,
}
use dgx_spark_llm_platform.Zip.Reader.{unzip}
use dgx_spark_llm_platform.Zip.RoundTrip.{entry_of, unzip-zip_files}

-- The check value of the CRC that the format names.
crc32_run : crc32 (codes "123456789") ≡ 0xcbf43926
unfolding crc32
crc32_run = refl

-- A letter of two bytes, and a pair of surrogates.
encode_run : encode (0xe9 ∷ 0xd83d ∷ 0xde00 ∷ []) ≡ 0xc3 ∷ 0xa9 ∷ 0xf0 ∷ 0x9f ∷ 0x98 ∷ 0x80 ∷ []
unfolding encode
encode_run = refl

abbrev two_files : List File
two_files =
    record { name = codes "a.md"; content = codes "hi" }
    ∷ record { name = codes "b"; content = [] }
    ∷ []

abbrev noon : Date
noon = record { year = 2026; month = 9; day = 1; hours = 12; minutes = 30; seconds = 7 }

zip_files_size : length (zip_files two_files noon) ≡ 186
unfolding zip_files add_files add_file local_record central_record end_record place total_from
    encode crc32 dos_time dos_date
zip_files_size = refl

unzip-zip_files_example : unzip (zip_files two_files noon) ≡ some (map entry_of two_files)
unfolding encode
unzip-zip_files_example =
    unzip-zip_files two_files noon (omega arith) (omega arith, (omega arith, tt))
      (omega (arith, zip_files_size))
