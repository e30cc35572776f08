-- ===== src/Stream/Chunks.antt =====
-- The events do not depend on how the stream is cut into chunks.
use mathlib.Core.List.{cons-ne-nil}
use dgx_spark_llm_platform.Base.{
  false, ◌&&◌, List, [], ◌∷◌, ◌++◌, append-nil, append_assoc, ◌==◌, Option, ◌≡◌, refl, sym, ap, ◌∙◌,
  arith, Bool-cases, inl, inr,
}
use dgx_spark_llm_platform.Base.Text.{Text, newline}
use dgx_spark_llm_platform.Stream.{push_first, new_part, cut, of_part, of_parts, read_chunks}

-- A text in which no part ends is what is left.
rest_of_no_part : (s : Text) → (cut s).0 ≡ [] → (cut s).1 ≡ s
unfolding cut
rest_of_no_part [] h = refl
rest_of_no_part (c ∷ []) h = refl
rest_of_no_part (c ∷ d ∷ s) h = elim (Bool-cases ((c == newline) && (d == newline))) [
  | inl e ↦ absurd (here (cut s) (ground arith))
  | inr e ↦ rw e (go (cut (d ∷ s)) (ground arith) (rest_of_no_part (d ∷ s)))
]
  where
    here : (p : List Text × Text) → (new_part p).0 ≡ [] → ⊥
    here (parts, rest) k = unfold new_part in cons-ne-nil [] parts k

    go :
        (p : List Text × Text)
        → (push_first c p).0 ≡ []
        → (p.0 ≡ [] → p.1 ≡ d ∷ s)
        → (push_first c p).1 ≡ c ∷ d ∷ s
    go ([], rest) k later = unfold push_first in ap (◌∷◌ c) (later refl)
    go (p ∷ parts, rest) k later = unfold push_first in absurd (cons-ne-nil (c ∷ p) parts k)

-- The parts of a text, then those that what is left of it makes with what follows.
abbrev pub then_cut : List Text × Text → Text → List Text × Text
then_cut p t = (p.0 ++ (cut (p.1 ++ t)).0, (cut (p.1 ++ t)).1)

new_part-then_cut :
    (p : List Text × Text) (t : Text) → new_part (then_cut p t) ≡ then_cut (new_part p) t
unfolding new_part
new_part-then_cut (parts, rest) t = refl

pub cut-append : (s t : Text) → cut (s ++ t) ≡ then_cut (cut s) t
unfolding cut
cut-append [] t = refl
cut-append (c ∷ []) t = refl
cut-append (c ∷ d ∷ s) t = elim (Bool-cases ((c == newline) && (d == newline))) [
  | inl e ↦ rw e (ap new_part (cut-append s t) ∙ new_part-then_cut (cut s) t)
  | inr e ↦ rw e (
      ap (push_first c) (cut-append (d ∷ s) t)
      ∙ go e (cut (d ∷ s)) (cut-append (d ∷ s) t) (rest_of_no_part (d ∷ s)))
]
  where
    go :
        ((c == newline) && (d == newline)) ≡ false
        → (p : List Text × Text) → cut (d ∷ (s ++ t)) ≡ then_cut p t
        → (p.0 ≡ [] → p.1 ≡ d ∷ s)
        → push_first c (then_cut p t) ≡ then_cut (push_first c p) t
    go e ([], rest) k later = unfold push_first in rw (later refl, e) refl
    go e (p ∷ parts, rest) k later = unfold push_first in refl

-- What is left of a text holds no part.
no_part_left : (s : Text) → (cut (cut s).1).0 ≡ []
unfolding cut
no_part_left [] = refl
no_part_left (c ∷ []) = refl
no_part_left (c ∷ d ∷ s) = elim (Bool-cases ((c == newline) && (d == newline))) [
  | inl e ↦ rw e (here (cut s) (no_part_left s))
  | inr e ↦ rw e (go e (cut (d ∷ s)) (no_part_left (d ∷ s)) (rest_of_no_part (d ∷ s)))
]
  where
    here : (p : List Text × Text) → (cut p.1).0 ≡ [] → (cut (new_part p).1).0 ≡ []
    here (parts, rest) k = unfold new_part in k

    first_none : (p : List Text × Text) → p.0 ≡ [] → (push_first c p).0 ≡ []
    first_none ([], rest) k = unfold push_first in refl
    first_none (p ∷ parts, rest) k = absurd (cons-ne-nil p parts k)

    go :
        ((c == newline) && (d == newline)) ≡ false
        → (p : List Text × Text) → (cut p.1).0 ≡ []
        → (p.0 ≡ [] → p.1 ≡ d ∷ s)
        → (cut (push_first c p).1).0 ≡ []
    go e ([], rest) k later =
        unfold push_first in
        rw (later refl, e) (first_none (cut (d ∷ s)) (ap (λ r. (cut r).0) (sym (later refl)) ∙ k))
    go e (p ∷ parts, rest) k later = unfold push_first in k

abbrev pub flat : List Text → Text
flat [] = []
flat (chunk ∷ chunks) = chunk ++ flat chunks

module _ {E : Type 0} (parse : Text → Option E) where
  pub of_parts-append :
      (ps qs : List Text) → of_parts parse (ps ++ qs) ≡ of_parts parse ps ++ of_parts parse qs
  unfolding of_parts
  of_parts-append [] qs = refl
  of_parts-append (p ∷ ps) qs =
      ap (λ r. of_part parse p ++ r) (of_parts-append ps qs)
      ∙ sym (append_assoc (of_part parse p) (of_parts parse ps) (of_parts parse qs))

  from_buffer :
      (chunks : List Text) (buffer : Text)
      → (cut buffer).0 ≡ []
      → read_chunks parse buffer chunks ≡ of_parts parse (cut (buffer ++ flat chunks)).0
  unfolding read_chunks
  from_buffer [] buffer h = rw (append-nil buffer, h) (unfold of_parts in refl)
  from_buffer (chunk ∷ chunks) buffer h =
      let p = cut (buffer ++ chunk) in
      ap (λ r. of_parts parse p.0 ++ r) (from_buffer chunks p.1 (no_part_left (buffer ++ chunk)))
      ∙ sym (of_parts-append p.0 (cut (p.1 ++ flat chunks)).0)
      ∙ ap (λ q. of_parts parse q.0)
          (sym (cut-append (buffer ++ chunk) (flat chunks))
            ∙ ap cut (append_assoc buffer chunk (flat chunks)))

  -- However the network cuts the stream into chunks, the events are those of the packets of the
  -- whole text, in order: a packet cut in two is neither lost nor read twice.
  pub read_chunks-flat :
      (chunks : List Text) → read_chunks parse [] chunks ≡ of_parts parse (cut (flat chunks)).0
  read_chunks-flat chunks = from_buffer chunks [] (unfold cut in refl)
