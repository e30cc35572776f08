-- ===== src/Voice/Stops.antt =====
-- Where the sentences may end: in order, and within the text.
use dgx_spark_llm_platform.Base.{
  ℕ, zero, suc, ◌+◌, ◌-◌, ◌≤◌, List, [], ◌∷◌, Option, none, some, length, ◌==◌, arith, Bool-cases,
  inl, inr,
}
use dgx_spark_llm_platform.Base.Text.{Text, is_space, newline}
use dgx_spark_llm_platform.Voice.{
  is_closer, is_mark, behind_marks, marks, boundary, and_on, stops_from,
}

-- Each at or behind the one before, and none behind the end.
unfoldable pub Chain : ℕ → ℕ → List ℕ → Type 0
Chain low high [] = Unit
Chain low high (p ∷ ps) = (low ≤ p) × (p ≤ high) × Chain p high ps

-- A match covers at least one character and no more than there are.
unfoldable pub Fits : ℕ → ℕ → Option ℕ → Type 0
Fits low high none = Unit
Fits low high (some n) = (low ≤ n) × (n ≤ high)

Fits-widen :
    (low high low' high' : ℕ) (o : Option ℕ)
    → low' ≤ low
    → high ≤ high'
    → Fits low high o
    → Fits low' high' o
unfolding Fits
Fits-widen low high low' high' none p q h = tt
Fits-widen low high low' high' (some n) p q (a, b) = (omega arith, omega arith)

Chain-widen :
    (low high low' high' : ℕ) (ps : List ℕ)
    → low' ≤ low
    → high ≤ high'
    → Chain low high ps
    → Chain low' high' ps
unfolding Chain
Chain-widen low high low' high' [] p q h = tt
Chain-widen low high low' high' (x ∷ ps) p q (a, b, h) =
    (omega arith, omega arith, Chain-widen x high x high' ps (omega arith) q h)

behind_marks-Fits : (n : ℕ) (s : Text) → Fits n (n + length s) (behind_marks n s)
unfolding behind_marks Fits
behind_marks-Fits n [] = (omega arith, omega arith)
behind_marks-Fits n (c ∷ s) = elim (Bool-cases (is_closer c)) [
  | inl e ↦ rw e (
      Fits-widen (suc n) (suc n + length s) n (n + suc (length s)) _ (omega arith) (omega arith)
        (behind_marks-Fits (suc n) s))
  | inr e ↦
      rw e (elim (Bool-cases (is_space c)) [
        | inl f ↦ rw f (omega arith, omega arith)
        | inr f ↦ rw f tt
      ])
]

marks-Fits : (n : ℕ) (s : Text) → Fits n (n + length s) (marks n s)
unfolding marks
marks-Fits n [] = behind_marks-Fits n []
marks-Fits n (c ∷ s) = elim (Bool-cases (is_mark c)) [
  | inl e ↦ rw e (
      Fits-widen (suc n) (suc n + length s) n (n + suc (length s)) _ (omega arith) (omega arith)
        (marks-Fits (suc n) s))
  | inr e ↦ rw e (behind_marks-Fits n (c ∷ s))
]

boundary-Fits : (c : ℕ) (s : Text) → Fits 1 (1 + length s) (boundary (c ∷ s))
unfolding boundary
boundary-Fits c s = elim (Bool-cases (is_mark c)) [
  | inl e ↦ rw e (marks-Fits 1 s)
  | inr e ↦ rw e (elim (Bool-cases (c == newline)) [
    | inl f ↦ rw f (unfold Fits in (omega arith, omega arith))
    | inr f ↦ rw f (unfold Fits in tt)
  ])
]

and_on-Chain :
    (at high : ℕ) (o : Option ℕ) (go : ℕ → List ℕ)
    → Fits 1 high o
    → ((n : ℕ) → Chain (suc at + n) (at + high) (go n))
    → Chain at (at + high) (and_on at o go)
unfolding and_on Fits Chain
and_on-Chain at high none go h k =
    Chain-widen (suc at + 0) _ at _ _ (omega arith) (omega arith) (k 0)
and_on-Chain at high (some n) go (a, b) k = (
  omega arith,
  omega arith,
  Chain-widen (suc at + (n - 1)) _ (at + n) _ _ (omega arith) (omega arith) (k (n - 1)),
)

pub stops_from-Chain :
    (at covered : ℕ) (s : Text) → Chain (at + covered) (at + length s) (stops_from at covered s)
unfolding stops_from
stops_from-Chain at covered [] = unfold Chain in tt
stops_from-Chain at (suc covered) (c ∷ s) =
    Chain-widen (suc at + covered) (suc at + length s) _ _ _ (omega arith) (omega arith)
      (stops_from-Chain (suc at) covered s)
stops_from-Chain at zero (c ∷ s) =
    Chain-widen at (at + suc (length s)) _ _ _ (omega arith) (omega arith) (
      and_on-Chain at (suc (length s)) (boundary (c ∷ s)) (λ n. stops_from (suc at) n s)
        (Fits-widen 1 (1 + length s) _ _ _ (omega arith) (omega arith) (boundary-Fits c s))
        (λ n.
          Chain-widen (suc at + n) (suc at + length s) _ _ _ (omega arith) (omega arith)
            (stops_from-Chain (suc at) n s)))
