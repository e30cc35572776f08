-- ===== src/Voice/Spoken.antt =====
-- The sentences cover the answer: nothing of it is lost or read twice.
use mathlib.Core.Path.{subst}
use dgx_spark_llm_platform.Base.{
  ℕ, zero, suc, ◌+◌, ◌≤◌, Bool, true, false, not, ◌&&◌, List, [], ◌∷◌, ◌++◌, length, length-append,
  length-drop, drop-length, take, take-length, drop, slice, ltb, leb, ◌≡◌, refl, ap, ◌∙◌, arith,
  Bool-cases, inl, inr,
}
use dgx_spark_llm_platform.Base.Text.{Text, trim, trim_start, trim_end}
use dgx_spark_llm_platform.Voice.{
  Sentence, min_chars, stops_from, say, cut_pieces, say_rest, say_tail, next_sentences,
}
use dgx_spark_llm_platform.Voice.Stops.{Chain, stops_from-Chain}

-- From one place of a text to another, through these sentences, in order: each is a piece of the
-- text, trimmed, and what lies between them is blank.
pub data Spoken (text : Text) : ℕ → List Sentence → ℕ → Type 0 where
  done : {n : ℕ} → Spoken text n [] n
  blank :
      {n m e : ℕ} {ss : List Sentence}
      → n ≤ m
      → m ≤ length text
      → trim (slice n m text) ≡ []
      → Spoken text m ss e
      → Spoken text n ss e
  says :
      {n m e c : ℕ} {t : Text} {ss : List Sentence}
      → n ≤ m
      → m ≤ length text
      → trim (slice n m text) ≡ c ∷ t
      → Spoken text m ss e
      → Spoken text n (record { text = c ∷ t; start = n; end = m } ∷ ss) e

pub Spoken-append :
    {text : Text} {n m e : ℕ} {ss ts : List Sentence}
    → Spoken text n ss m
    → Spoken text m ts e
    → Spoken text n (ss ++ ts) e
Spoken-append done h = h
Spoken-append (blank p q b g) h = blank p q b (Spoken-append g h)
Spoken-append (says p q b g) h = says p q b (Spoken-append g h)

-- What is read aloud stays so when the text grows.
pub slice-append :
    (n m : ℕ) (text more : Text) → m ≤ length text → slice n m (text ++ more) ≡ slice n m text
slice-append n m text more h = ap (drop n) (take-append_within m text more h)
  where
    take-append_within :
        (m : ℕ) (text more : Text) → m ≤ length text → take m (text ++ more) ≡ take m text
    take-append_within zero text more h = refl
    take-append_within (suc m) [] more h = absurd (omega arith)
    take-append_within (suc m) (c ∷ text) more h =
        ap (◌∷◌ c) (take-append_within m text more (omega arith))

longer : (m : ℕ) (text more : Text) → m ≤ length text → m ≤ length (text ++ more)
longer m text more h = omega (arith, length-append text more)

pub Spoken-grow :
    {text : Text} {n e : ℕ} {ss : List Sentence} (more : Text)
    → Spoken text n ss e
    → Spoken (text ++ more) n ss e
Spoken-grow more done = done
Spoken-grow {text} more (blank {n} {m} p q b g) =
    blank p (longer m text more q) (ap trim (slice-append n m text more q) ∙ b) (Spoken-grow more g)
Spoken-grow {text} more (says {n} {m} p q b g) =
    says p (longer m text more q) (ap trim (slice-append n m text more q) ∙ b) (Spoken-grow more g)

say-Spoken :
    {text : Text} {n m e : ℕ} {ss : List Sentence} (t : Text)
    → trim (slice n m text) ≡ t
    → n ≤ m
    → m ≤ length text
    → Spoken text m ss e
    → Spoken text n (say t n m ss) e
unfolding say
say-Spoken [] b p q h = blank p q b h
say-Spoken (c ∷ t) b p q h = says p q b h

-- The loop, from matches in order and within the text; it stops within the text.
cut_pieces-Spoken :
    (final : Bool) (text : Text) (start low : ℕ) (stops : List ℕ)
    → start ≤ low
    → start ≤ length text
    → Chain low (length text) stops
    → let cut = cut_pieces final text start stops in
      Spoken text start (cut.0) (cut.1) × cut.1 ≤ length text
unfolding cut_pieces Chain
cut_pieces-Spoken final text start low [] p q h = (done, q)
cut_pieces-Spoken final text start low (stop ∷ stops) p q (a, b, h) =
    let waits = ltb (length (trim (slice start stop text))) min_chars && not final in
    elim (Bool-cases (not final && leb (length text) stop)) [
      | inl e ↦ rw e (done, q)
      | inr e ↦ rw e (elim (Bool-cases waits) [
        | inl f ↦ rw f (cut_pieces-Spoken final text start stop stops (omega arith) q h)
        | inr f ↦ rw f (
            let (spoken, within) = cut_pieces-Spoken final text stop stop stops (omega arith) b h in
            (say-Spoken _ refl (omega arith) b spoken, within))
      ])
    ]

-- All of the text that is not blank is covered.
unfoldable pub Covers : Text → ℕ → List Sentence × ℕ → Type 0
Covers text from (sentences, end) = Spoken text from sentences end × (trim (drop end text) ≡ [])

slice_rest : (n : ℕ) (text : Text) → slice n (length text) text ≡ drop n text
slice_rest n text = ap (drop n) (take-length text)

trim_nil : trim [] ≡ []
unfolding trim trim_start trim_end
trim_nil = refl

say_rest-Covers :
    {text : Text} {from end : ℕ} {ss : List Sentence} (t : Text)
    → trim (drop end text) ≡ t
    → end ≤ length text
    → Spoken text from ss end
    → Covers text from (say_rest t text (ss, end))
unfolding say_rest Covers
say_rest-Covers [] b p h = (h, b)
say_rest-Covers {text} {from} {end} (c ∷ t) b p h = (
  Spoken-append h (says p (omega arith) (ap trim (slice_rest end text) ∙ b) done),
  ap trim (drop-length text) ∙ trim_nil,
)

stops-Chain :
    (text : Text) (from : ℕ)
    → from ≤ length text
    → Chain from (length text) (stops_from from 0 (drop from text))
stops-Chain text from p =
    subst (λ n. Chain n (length text) (stops_from from 0 (drop from text))) (omega arith)
      (subst (λ n. Chain (from + 0) n (stops_from from 0 (drop from text)))
        (omega (arith, length-drop from text)) (stops_from-Chain from 0 (drop from text)))

pub next_sentences-Spoken :
    (text : Text) (from : ℕ)
    → from ≤ length text
    → let (sentences, end) = next_sentences text from false in
      Spoken text from sentences end × end ≤ length text
unfolding next_sentences
next_sentences-Spoken text from p =
    cut_pieces-Spoken false text from from (stops_from from 0 (drop from text)) (omega arith) p
      (stops-Chain text from p)

pub next_sentences-Covers :
    (text : Text) (from : ℕ) → from ≤ length text → Covers text from (next_sentences text from true)
unfolding next_sentences say_tail
next_sentences-Covers text from p =
    let (spoken, within) =
      cut_pieces-Spoken true text from from (stops_from from 0 (drop from text)) (omega arith) p
        (stops-Chain text from p) in
    say_rest-Covers _ refl within spoken

say_rest-within :
    (t text : Text) (ss : List Sentence) (end : ℕ)
    → end ≤ length text
    → (say_rest t text (ss, end)).1 ≤ length text
unfolding say_rest
say_rest-within [] text ss end p = p
say_rest-within (c ∷ t) text ss end p = omega arith

-- The last call, too, stops within the text.
next_sentences-within :
    (text : Text) (from : ℕ) → from ≤ length text → (next_sentences text from true).1 ≤ length text
unfolding next_sentences say_tail
next_sentences-within text from p =
    let stops = stops_from from 0 (drop from text) in
    let cut = cut_pieces true text from stops in
    let (spoken, within) =
      cut_pieces-Spoken true text from from stops (omega arith) p (stops-Chain text from p) in
    say_rest-within (trim (drop (cut.1) text)) text (cut.0) (cut.1) within

pub next_sentences-any :
    (text : Text) (from : ℕ) (final : Bool)
    → from ≤ length text
    → let (sentences, end) = next_sentences text from final in
      Spoken text from sentences end × end ≤ length text
unfolding Covers
next_sentences-any text from false p = next_sentences-Spoken text from p
next_sentences-any text from true p =
    let (spoken, rest) = next_sentences-Covers text from p in
    (spoken, next_sentences-within text from p)
