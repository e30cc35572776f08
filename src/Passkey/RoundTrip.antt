-- ===== src/Passkey/RoundTrip.antt =====
-- Bytes in base64url are read back.
use mathlib.Core.Path.{ap₂}
use dgx_spark_llm_platform.Base.{
  ℕ, zero, suc, ◌%◌, ◌<◌, true, false, List, [], ◌∷◌, ◌++◌, append-nil, append_assoc, map, some,
  length, length-append, replicate, length-replicate, All, ◌==◌, if◌then◌else◌, ◌≡◌, ◌≢◌, refl, sym,
  ap, ◌∙◌, arith,
}
use dgx_spark_llm_platform.Base.Text.{Text}
use dgx_spark_llm_platform.Passkey.{
  Bytes, padding, sextets, char_of, missing, btoa, bytes_of, decoded, atob, is_ascii_space,
  without_space, strip_one, strip_padding, swap, strip_all, bytes_from_base64url,
  bytes_to_base64url,
}
use dgx_spark_llm_platform.Passkey.Sextets.{
  IsByte, IsSextet, bytes_of-sextets, sextets-IsSextet, length-sextets, values-char_of,
}

-- A character of the alphabet, in base64 and in base64url.
url_char : ℕ → ℕ
url_char n =
    let c = char_of n in let d = if c == b'+' then b'-' else c in if d == b'/' then b'_' else d

swap_to : (ns : List ℕ) → swap b'/' b'_' (swap b'+' b'-' (map char_of ns)) ≡ map url_char ns
unfolding url_char
swap_to [] = refl
swap_to (n ∷ ns) = ap₂ ◌∷◌ refl (swap_to ns)

char_back :
    (n : ℕ)
    → IsSextet n
    → (let c = if url_char n == b'-' then b'+' else url_char n in if c == b'_' then b'/' else c)
      ≡ char_of n
unfolding url_char char_of
char_back n h = ground arith

swap_back :
    (ns : List ℕ)
    → All IsSextet ns
    → swap b'_' b'/' (swap b'-' b'+' (map url_char ns)) ≡ map char_of ns
swap_back [] h = refl
swap_back (n ∷ ns) (h, hs) = ap₂ ◌∷◌ (char_back n h) (swap_back ns hs)

swap-append : (a b : ℕ) (s t : Text) → swap a b (s ++ t) ≡ swap a b s ++ swap a b t
swap-append a b [] t = refl
swap-append a b (c ∷ s) t = ap (◌∷◌ (if c == a then b else c)) (swap-append a b s t)

swap-padding :
    (a b k : ℕ) → (padding == a) ≡ false → swap a b (replicate k padding) ≡ replicate k padding
swap-padding a b zero h = refl
swap-padding a b (suc k) h = rw (swap-padding a b k h, h) refl

url_char_plain : (n : ℕ) → IsSextet n → (url_char n == padding) ≡ false
unfolding url_char char_of
url_char_plain n h = ground arith

char_of_plain :
    (n : ℕ) → IsSextet n → ((char_of n == padding) ≡ false) × (is_ascii_space (char_of n) ≡ false)
unfolding char_of is_ascii_space
char_of_plain n h = (ground arith, ground arith)

strip_all-padding : (k : ℕ) → strip_all (replicate k padding) ≡ []
unfolding strip_all
strip_all-padding zero = refl
strip_all-padding (suc k) = rw (strip_all-padding k) refl

strip_all_lem :
    (ns : List ℕ) (k : ℕ)
    → All IsSextet ns
    → strip_all (map url_char ns ++ replicate k padding) ≡ map url_char ns
unfolding strip_all
strip_all_lem [] k h = strip_all-padding k
strip_all_lem (n ∷ []) k (h, _) = rw (strip_all-padding k, url_char_plain n h) refl
strip_all_lem (n ∷ m ∷ ns) k (h, hs) = rw (strip_all_lem (m ∷ ns) k hs) refl

no_space :
    (ns : List ℕ) (k : ℕ)
    → All IsSextet ns
    → without_space (map char_of ns ++ replicate k padding) ≡ map char_of ns ++ replicate k padding
unfolding without_space
no_space [] zero h = refl
no_space [] (suc k) h = unfold is_ascii_space in ap (◌∷◌ padding) (no_space [] k tt)
no_space (n ∷ ns) k (h, hs) = rw ((char_of_plain n h).1, no_space ns k hs) refl

strip_one-padding : (s : Text) → strip_one (s ++ padding ∷ []) ≡ s
unfolding strip_one
strip_one-padding [] = refl
strip_one-padding (c ∷ []) = refl
strip_one-padding (c ∷ d ∷ s) = ap (◌∷◌ c) (strip_one-padding (d ∷ s))

strip_one_plain : (ns : List ℕ) → All IsSextet ns → strip_one (map char_of ns) ≡ map char_of ns
unfolding strip_one
strip_one_plain [] h = refl
strip_one_plain (n ∷ []) (h, _) = rw ((char_of_plain n h).0) refl
strip_one_plain (n ∷ m ∷ ns) (h, hs) = ap (◌∷◌ (char_of n)) (strip_one_plain (m ∷ ns) hs)

length-map_char : (f : ℕ → ℕ) (ns : List ℕ) → length (map f ns) ≡ length ns
length-map_char f [] = refl
length-map_char f (n ∷ ns) = ap suc (length-map_char f ns)

strip_twice :
    (ns : List ℕ) (k : ℕ)
    → All IsSextet ns
    → k < 3
    → strip_one (strip_one (map char_of ns ++ replicate k padding)) ≡ map char_of ns
strip_twice ns zero h few =
    rw (append-nil (map char_of ns), strip_one_plain ns h) (strip_one_plain ns h)
strip_twice ns (suc zero) h few = rw (strip_one-padding (map char_of ns)) (strip_one_plain ns h)
strip_twice ns (suc (suc zero)) h few =
    ap (λ s. strip_one (strip_one s))
      (sym (append_assoc (map char_of ns) (padding ∷ []) (padding ∷ [])))
    ∙ ap strip_one (strip_one-padding (map char_of ns ++ padding ∷ []))
    ∙ strip_one-padding (map char_of ns)
strip_twice ns (suc (suc (suc k))) h few = absurd (omega arith)

strip_padding_lem :
    (ns : List ℕ)
    → All IsSextet ns
    → length ns % 4 ≢ 1
    → strip_padding (map char_of ns ++ replicate (missing (length ns)) padding) ≡ map char_of ns
unfolding strip_padding
strip_padding_lem ns h odd =
    let k = missing (length ns) in
    let few : k < 3 = unfold missing in omega arith in
    let size : (length (map char_of ns ++ replicate k padding) % 4 == 0) ≡ true =
      rw
        (
          length-append (map char_of ns) (replicate k padding),
          length-map_char char_of ns,
          length-replicate k padding,
        )
        (unfold missing in ground arith) in
    rw size (strip_twice ns k h few)

-- The text of bytes in base64url is the bytes' text in base64, with two characters of the alphabet
-- exchanged and no padding.
to_base64url_lem :
    (bytes : Bytes) → All IsByte bytes → bytes_to_base64url bytes ≡ map url_char (sextets bytes)
unfolding bytes_to_base64url btoa
to_base64url_lem bytes h =
    let ns = sextets bytes in
    let k = missing (length (map char_of ns)) in
    ap (λ s. strip_all (swap b'/' b'_' s))
      (swap-append b'+' b'-' (map char_of ns) (replicate k padding))
    ∙ ap strip_all (
        swap-append b'/' b'_' (swap b'+' b'-' (map char_of ns))
          (swap b'+' b'-' (replicate k padding))
        ∙ ap₂ ◌++◌ (swap_to ns)
            (ap (swap b'/' b'_') (swap-padding b'+' b'-' k refl) ∙ swap-padding b'/' b'_' k refl))
    ∙ strip_all_lem ns k (sextets-IsSextet bytes h)

from_base64url_lem :
    (ns : List ℕ)
    → All IsSextet ns
    → length ns % 4 ≢ 1
    → bytes_from_base64url (map url_char ns) ≡ bytes_of ns
unfolding bytes_from_base64url
from_base64url_lem ns h odd =
    let k = missing (length ns) in
    let swapped : swap b'_' b'/' (swap b'-' b'+' (map url_char ns ++ replicate k padding))
        ≡ map char_of ns ++ replicate k padding =
      ap (swap b'_' b'/') (swap-append b'-' b'+' (map url_char ns) (replicate k padding))
      ∙ swap-append b'_' b'/' (swap b'-' b'+' (map url_char ns))
          (swap b'-' b'+' (replicate k padding))
      ∙ ap₂ ◌++◌ (swap_back ns h)
          (ap (swap b'_' b'/') (swap-padding b'-' b'+' k refl) ∙ swap-padding b'_' b'/' k refl) in
    ap
      (λ n.
        atob (swap b'_' b'/' (swap b'-' b'+' (map url_char ns ++ replicate (missing n) padding))))
      (length-map_char url_char ns)
    ∙ ap atob swapped
    ∙ unfold atob in
      rw (no_space ns k h, strip_padding_lem ns h odd, values-char_of ns h) (unfold decoded in refl)

-- The bytes that the browser gives are read back from the base64url text they are sent as, which
-- holds no `+`, no `/` and no padding.
pub bytes_from_base64url-to :
    (bytes : Bytes)
    → All IsByte bytes
    → (bytes_from_base64url (bytes_to_base64url bytes) ≡ some bytes)
      × All (λ c. (c ≢ b'+') × (c ≢ b'/') × (c ≢ padding)) (bytes_to_base64url bytes)
bytes_from_base64url-to bytes h = rw (to_base64url_lem bytes h) (
  from_base64url_lem (sextets bytes) (sextets-IsSextet bytes h) (length-sextets bytes)
      ∙ bytes_of-sextets bytes h,
  plain (sextets bytes) (sextets-IsSextet bytes h),
)
  where
    url_safe :
        (n : ℕ) → IsSextet n → (url_char n ≢ b'+') × (url_char n ≢ b'/') × (url_char n ≢ padding)
    url_safe n h = unfold url_char char_of in (ground arith, ground arith, ground arith)

    plain :
        (ns : List ℕ)
        → All IsSextet ns
        → All (λ c. (c ≢ b'+') × (c ≢ b'/') × (c ≢ padding)) (map url_char ns)
    plain [] h = tt
    plain (n ∷ ns) (h, hs) = (url_safe n h, plain ns hs)
