-- ===== src/Passkey/Sextets.antt =====
-- Bytes as numbers below 64, and back.
use mathlib.Core.Path.{ap₂}
use dgx_spark_llm_platform.Base.{
  ℕ, ◌%◌, ◌<◌, List, [], ◌∷◌, map, some, length, All, ◌≡◌, ◌≢◌, refl, ap, arith,
}
use dgx_spark_llm_platform.Passkey.{Bytes, sextets, char_of, value_of, cons_value, values, bytes_of}

abbrev pub IsByte : ℕ → Type 0
IsByte b = b < 256

abbrev pub IsSextet : ℕ → Type 0
IsSextet n = n < 64

pub bytes_of-sextets : (bytes : Bytes) → All IsByte bytes → bytes_of (sextets bytes) ≡ some bytes
unfolding bytes_of sextets
bytes_of-sextets [] h = refl
bytes_of-sextets (a ∷ []) (p, _) = ap some (ap (λ n. n ∷ []) (omega arith))
bytes_of-sextets (a ∷ b ∷ []) (p, (q, _)) =
    ap some (ap₂ ◌∷◌ (omega arith) (ap (λ n. n ∷ []) (omega arith)))
bytes_of-sextets (a ∷ b ∷ c ∷ s) (p, (q, (r, h))) =
    rw (bytes_of-sextets s h)
      (ap some (ap₂ ◌∷◌ (omega arith) (ap₂ ◌∷◌ (omega arith) (ap (λ n. n ∷ s) (omega arith)))))

pub sextets-IsSextet : (bytes : Bytes) → All IsByte bytes → All IsSextet (sextets bytes)
unfolding sextets
sextets-IsSextet [] h = tt
sextets-IsSextet (a ∷ []) (p, _) = (omega arith, (omega arith, tt))
sextets-IsSextet (a ∷ b ∷ []) (p, (q, _)) = (omega arith, (omega arith, (omega arith, tt)))
sextets-IsSextet (a ∷ b ∷ c ∷ s) (p, (q, (r, h))) =
    (omega arith, (omega arith, (omega arith, (omega arith, sextets-IsSextet s h))))

-- No text of base64 has one character over a multiple of four.
pub length-sextets : (bytes : Bytes) → length (sextets bytes) % 4 ≢ 1
unfolding sextets
length-sextets [] = omega arith
length-sextets (a ∷ []) = omega arith
length-sextets (a ∷ b ∷ []) = omega arith
length-sextets (a ∷ b ∷ c ∷ s) = omega (arith, length-sextets s)

value_of-char_of : (n : ℕ) → IsSextet n → value_of (char_of n) ≡ some n
unfolding value_of char_of
value_of-char_of n h = ground arith

pub values-char_of : (ns : List ℕ) → All IsSextet ns → values (map char_of ns) ≡ some ns
unfolding values
values-char_of [] h = refl
values-char_of (n ∷ ns) (h, hs) =
    rw (value_of-char_of n h, values-char_of ns hs) (unfold cons_value in refl)
