-- ===== src/Backend/Prefixes.antt =====
-- What an entry of the prefix list covers.
use mathlib.Core.List.{cons-ne-nil}
use dgx_spark_llm_platform.Base.{
  ℕ, true, false, not, List, [], ◌∷◌, ◌++◌, ◌≡◌, ◌≢◌, ◌↔◌, ◌⊎◌, inl, inr, refl, sym, ap, ◌∙◌, arith,
  length, ltb, ◌==◌, if◌then◌else◌, All, append-nil, length-append,
}
use dgx_spark_llm_platform.Base.Text.{
  Text, text_eq_sound, text_eq_refl, split, join, join-split, join-append, split-append,
  split-ne-nil,
}
use dgx_spark_llm_platform.Backend.{
  slash, star, has_space, ends_with_char, strip_last, segments_match, covers, split_entry,
}

strip_last-id : (c : ℕ) (s : Text) → ends_with_char c s ≡ false → strip_last c s ≡ s
unfolding ends_with_char strip_last
strip_last-id c [] h = refl
strip_last-id c (d ∷ []) h = ground arith
strip_last-id c (d ∷ e ∷ s) h = ap (◌∷◌ d) (strip_last-id c (e ∷ s) h)

abbrev IsName : Text → Type 0
IsName seg = seg ≢ star

-- Segments that are names match the start of the path's segments, and nothing else.
segments_match_sound :
    (want got : List Text)
    → All IsName want
    → segments_match want got ≡ true
    → (rest : List Text) × (got ≡ want ++ rest)
unfolding segments_match
segments_match_sound [] got h k = (got, refl)
segments_match_sound (seg ∷ want) [] (n, h) k = absurd (n (text_eq_sound seg star (ground arith)))
segments_match_sound (seg ∷ want) (g ∷ got) (n, h) k =
    let (rest, e) = segments_match_sound want got h (ground arith) in
    (rest, ground (arith, text_eq_sound seg g, text_eq_sound seg star))

segments_match_complete : (want rest : List Text) → segments_match want (want ++ rest) ≡ true
unfolding segments_match
segments_match_complete [] rest = refl
segments_match_complete (seg ∷ want) rest =
    ground (arith, text_eq_refl seg, segments_match_complete want rest)

-- `path` is `p` or lies below it.
abbrev pub IsBelow : Text → Text → Type 0
IsBelow p path = (path ≡ p) ⊎ ((rest : Text) × (path ≡ p ++ slash ∷ rest))

IsBelow-of_parts :
    (p path : Text) (rest : List Text) → split slash path ≡ split slash p ++ rest → IsBelow p path
IsBelow-of_parts p path [] h = inl (
    sym (join-split slash path)
    ∙ ap (join slash) (h ∙ append-nil (split slash p))
    ∙ join-split slash p)
IsBelow-of_parts p path (r ∷ rest) h = inr (
  join slash (r ∷ rest),
  sym (join-split slash path)
      ∙ ap (join slash) h
      ∙ join-append slash (split slash p) (r ∷ rest) (split-ne-nil slash p) (cons-ne-nil r rest)
      ∙ ap (λ s. s ++ slash ∷ join slash (r ∷ rest)) (join-split slash p),
)

parts_of_below :
    (p path : Text)
    → IsBelow p path
    → (rest : List Text) × (split slash path ≡ split slash p ++ rest)
parts_of_below p path (inl e) = ([], ap (split slash) e ∙ sym (append-nil (split slash p)))
parts_of_below p path (inr (rest, e)) =
    (split slash rest, ap (split slash) e ∙ split-append slash p rest)

-- The test of an entry with no method, no `$` and no last slash, reduced to the segments.
covers_plain :
    (method path p : Text)
    → has_space p ≡ false
    → ends_with_char b'$' p ≡ false
    → ends_with_char slash p ≡ false
    → covers method path p ≡ (
        if ltb (length (split slash path)) (length (split slash p))
        then false
        else segments_match (split slash p) (split slash path))
covers_plain method path p h k l =
    let entry : split_entry p ≡ ([], p) = unfold split_entry in rw h refl in
    let want : split slash (strip_last slash (strip_last b'$' p)) ≡ split slash p =
      rw (strip_last-id b'$' p k) (rw (strip_last-id slash p l) refl) in
    unfold covers in ground (arith, entry, want)

match-IsBelow :
    (path p : Text)
    → All IsName (split slash p)
    → ((if ltb (length (split slash path)) (length (split slash p))
          then false
          else segments_match (split slash p) (split slash path))
        ≡ true)
      ↔ IsBelow p path
match-IsBelow path p names = (
  λ h.
      let (rest, e) =
        segments_match_sound (split slash p) (split slash path) names (ground arith) in
      IsBelow-of_parts p path rest e,
  λ below.
      let (rest, e) = parts_of_below p path below in
      let size = ap length e ∙ length-append (split slash p) rest in
      let short : ltb (length (split slash path)) (length (split slash p)) ≡ false = ground arith in
      rw short (rw e (segments_match_complete (split slash p) rest)),
)

-- An entry that is a path, with no method, no `$`, no last slash and no `*` segment, covers that
-- path and the paths below it, with any method, and no other path.
pub covers-IsBelow_iff :
    (method path p : Text)
    → has_space p ≡ false
    → ends_with_char b'$' p ≡ false
    → ends_with_char slash p ≡ false
    → All (λ seg. seg ≢ star) (split slash p)
    → (covers method path p ≡ true) ↔ IsBelow p path
covers-IsBelow_iff method path p h k l names =
    let (to, from) = match-IsBelow path p names in
    let same = covers_plain method path p h k l in (λ e. to (sym same ∙ e), λ b. same ∙ from b)

ends_with_dollar : (p : Text) → ends_with_char b'$' (p ++ b'$' ∷ []) ≡ true
unfolding ends_with_char
ends_with_dollar [] = refl
ends_with_dollar (c ∷ []) = refl
ends_with_dollar (c ∷ d ∷ p) = ends_with_dollar (d ∷ p)

strip_dollar : (p : Text) → strip_last b'$' (p ++ b'$' ∷ []) ≡ p
unfolding strip_last
strip_dollar [] = refl
strip_dollar (c ∷ []) = refl
strip_dollar (c ∷ d ∷ p) = ap (◌∷◌ c) (strip_dollar (d ∷ p))

has_space-dollar : (p : Text) → has_space p ≡ false → has_space (p ++ b'$' ∷ []) ≡ false
unfolding has_space
has_space-dollar [] h = refl
has_space-dollar (c ∷ p) h = ground (arith, has_space-dollar p)

nil_of_length {ℓ} : {A : Type ℓ} (xs ys : List A) → length (xs ++ ys) ≡ length xs → ys ≡ []
nil_of_length xs [] h = refl
nil_of_length xs (y ∷ ys) h = absurd (omega (arith, length-append xs (y ∷ ys)))

covers_dollar :
    (method path p : Text)
    → has_space p ≡ false
    → ends_with_char slash p ≡ false
    → covers method path (p ++ b'$' ∷ []) ≡ (
        if not (length (split slash path) == length (split slash p))
        then false
        else segments_match (split slash p) (split slash path))
covers_dollar method path p h l =
    let entry : split_entry (p ++ b'$' ∷ []) ≡ ([], p ++ b'$' ∷ []) =
      unfold split_entry in rw (has_space-dollar p h) refl in
    let want : split slash (strip_last slash (strip_last b'$' (p ++ b'$' ∷ []))) ≡ split slash p =
      rw (strip_dollar p) (rw (strip_last-id slash p l) refl) in
    let exact = ends_with_dollar p in unfold covers in ground (arith, entry, want, exact)

-- The same entry with `$` behind it covers that path alone.
pub covers-dollar_iff :
    (method path p : Text)
    → has_space p ≡ false
    → ends_with_char slash p ≡ false
    → All (λ seg. seg ≢ star) (split slash p)
    → (covers method path (p ++ b'$' ∷ []) ≡ true) ↔ (path ≡ p)
covers-dollar_iff method path p h l names =
    let same = covers_dollar method path p h l in
    (
      λ e.
          let (rest, parts) =
            segments_match_sound (split slash p) (split slash path) names (ground arith) in
          let none_left =
            nil_of_length (split slash p) rest (sym (ap length parts) ∙ ground arith) in
          sym (join-split slash path)
          ∙ ap (join slash)
              (parts ∙ ap (λ r. split slash p ++ r) none_left ∙ append-nil (split slash p))
          ∙ join-split slash p,
      λ e.
          let matched =
            ap (segments_match (split slash p)) (sym (append-nil (split slash p)))
            ∙ segments_match_complete (split slash p) [] in
          rw e (covers_dollar method p p h l ∙ ground arith),
    )
