-- ===== src/Repair/Escape.antt =====
-- `escapeRawControlChars`: what it leaves in a string.
use dgx_spark_llm_platform.Base.{
  ℕ, Bool, true, false, not, ◌&&◌, ◌||◌, [], ◌∷◌, ◌++◌, ◌≡◌, ◌↔◌, refl, ap, arith, ◌==◌,
}
use dgx_spark_llm_platform.Base.Text.{Text}
use dgx_spark_llm_platform.Repair.{
  Scan, outside, scan, scan_flags, escape_piece, escape_from, escape_raw_control_chars,
}

abbrev is_line_control : ℕ → Bool
is_line_control c = (c == b'\n') || (c == b'\r') || (c == b'\t')

-- No line break, carriage return or tab stands in a string unless right behind a backslash.
abbrev pub IsClean : Scan → Text → Type 0
IsClean st [] = Unit
IsClean st (c ∷ s) =
    ((st.in_string && not st.escaped && is_line_control c) ≡ false) × IsClean (scan st c) s

escape_piece_clean :
    (b e : Bool) (c : ℕ) → (b && not e && is_line_control c) ≡ false → escape_piece b e c ≡ c ∷ []
unfolding escape_piece
escape_piece_clean true true c h = refl
escape_piece_clean true false c h = ground arith
escape_piece_clean false true c h = refl
escape_piece_clean false false c h = refl

escape_from_clean : (s : Text) (st : Scan) → IsClean st s → escape_from st s ≡ s
unfolding escape_from
escape_from_clean [] st h = refl
escape_from_clean (c ∷ s) st (h, k) =
    rw (escape_piece_clean st.in_string st.escaped c h)
      (ap (◌∷◌ c) (escape_from_clean s (scan st c) k))

-- What one round writes is clean, and leads the flags to where the character led them.
escape_piece-IsClean :
    (b e : Bool) (c : ℕ) (rest : Text)
    → IsClean (scan_flags b e c) rest
    → IsClean (record { in_string = b; escaped = e }) (escape_piece b e c ++ rest)
unfolding escape_piece scan_flags
escape_piece-IsClean true true c rest h = (refl, h)
escape_piece-IsClean true false c rest h = ground arith
escape_piece-IsClean false true c rest h = (refl, h)
escape_piece-IsClean false false c rest h = (refl, h)

escape_from-IsClean : (s : Text) (st : Scan) → IsClean st (escape_from st s)
unfolding escape_from
escape_from-IsClean [] st = tt
escape_from-IsClean (c ∷ s) st =
    escape_piece-IsClean st.in_string st.escaped c (escape_from (scan st c) s)
      (escape_from-IsClean s (scan st c))

-- No line break, carriage return or tab stands in a string, also behind a backslash.
abbrev pub IsAllowed : Scan → Text → Type 0
IsAllowed st [] = Unit
IsAllowed st (c ∷ s) = ((st.in_string && is_line_control c) ≡ false) × IsAllowed (scan st c) s

-- None of them stands right behind a backslash of a string.
abbrev pub HasNoneBehind : Scan → Text → Type 0
HasNoneBehind st [] = Unit
HasNoneBehind st (c ∷ s) =
    ((st.in_string && st.escaped && is_line_control c) ≡ false) × HasNoneBehind (scan st c) s

escape_piece-IsAllowed :
    (b e : Bool) (c : ℕ) (rest : Text)
    → IsAllowed (record { in_string = b; escaped = e }) (escape_piece b e c ++ rest)
      ↔ (((b && e && is_line_control c) ≡ false) × IsAllowed (scan_flags b e c) rest)
unfolding escape_piece scan_flags
escape_piece-IsAllowed true true c rest = (λ h. h, λ h. h)
escape_piece-IsAllowed true false c rest = (λ h. ground arith, λ h. ground arith)
escape_piece-IsAllowed false true c rest = (λ h. h, λ h. h)
escape_piece-IsAllowed false false c rest = (λ h. h, λ h. h)

escape_from-IsAllowed :
    (s : Text) (st : Scan) → IsAllowed st (escape_from st s) ↔ HasNoneBehind st s
unfolding escape_from
escape_from-IsAllowed [] st = (λ h. h, λ h. h)
escape_from-IsAllowed (c ∷ s) st =
    let piece = escape_piece-IsAllowed st.in_string st.escaped c (escape_from (scan st c) s) in
    let rest = escape_from-IsAllowed s (scan st c) in
    (
      λ h. let (here, later) = piece.0 h in (here, rest.0 later),
      λ (here, later). piece.1 (here, rest.1 later),
    )

-- For every text: in a string of the result a raw line break, carriage return or tab stands at most
-- right behind a backslash, and the strings hold none of them at all exactly when the source has
-- none right behind a backslash of a string; a text that is clean in the first sense is left as it
-- is, and so a second run changes nothing.
pub escape_raw_control_chars-IsClean :
    (src : Text)
    → IsClean outside (escape_raw_control_chars src)
      × (IsAllowed outside (escape_raw_control_chars src) ↔ HasNoneBehind outside src)
      × (IsClean outside src → escape_raw_control_chars src ≡ src)
      × (escape_raw_control_chars (escape_raw_control_chars src) ≡ escape_raw_control_chars src)
unfolding escape_raw_control_chars
escape_raw_control_chars-IsClean src =
    let clean = escape_from-IsClean src outside in
    (
      clean,
      escape_from-IsAllowed src outside,
      escape_from_clean src outside,
      escape_from_clean (escape_from outside src) outside clean,
    )
