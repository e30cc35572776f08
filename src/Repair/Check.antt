-- ===== src/Repair/Check.antt =====
-- A checker of brackets and strings, to say what a repaired text is.
use dgx_spark_llm_platform.Base.{
  ℕ, Bool, true, false, List, [], ◌∷◌, ◌++◌, Option, none, some, ◌≡◌, arith, ◌==◌, if◌then◌else◌,
  Option-cases, inl, inr,
}
use dgx_spark_llm_platform.Base.Text.{Text}
use dgx_spark_llm_platform.Repair.{
  Scan, outside, scan, scan_flags, quote, is_opener, is_closer, closer_of,
}

-- The closers that are still expected, after one character; `none` at a closer that does not match.
unfoldable pub check_round : Bool → List ℕ → ℕ → Option (List ℕ)
check_round true stack c = some stack
check_round false [] c =
    if c == quote
    then some []
    else if is_opener c
    then some (closer_of c ∷ [])
    else if is_closer c
    then none
    else some []
check_round false (top ∷ stack) c =
    if c == quote
    then some (top ∷ stack)
    else if is_opener c
    then some (closer_of c ∷ top ∷ stack)
    else if is_closer c
    then (if top == c then some stack else none)
    else some (top ∷ stack)

-- The flags and the closers expected behind a text; `none` where a closer does not match.
unfoldable pub check_run : Scan → List ℕ → Text → Option (Scan × List ℕ)
unfolding check_round scan_flags
check_run st stack [] = some (st, stack)
check_run st stack (c ∷ s) = elim (check_round st.in_string stack c) [
  | none ↦ none
  | some stack' ↦ check_run (scan st c) stack' s
]

-- Every string is closed, and every opener has its closer, in order, with no other closer.
abbrev pub IsBalanced : Text → Type 0
IsBalanced s = check_run outside [] s ≡ some (outside, [])

-- The flags behind a text.
unfoldable pub scan_all : Scan → Text → Scan
unfolding scan_flags
scan_all st [] = st
scan_all st (c ∷ s) = scan_all (scan st c) s

-- The text stops inside a string, right behind a backslash that escapes what would come next.
abbrev pub EndsEscaped : Text → Type 0
EndsEscaped s = scan_all outside s ≡ record { in_string = true; escaped = true }

pub check_run-append :
    (p q : Text) (st : Scan) (stack : List ℕ) {st' : Scan} {stack' : List ℕ}
    → check_run st stack p ≡ some (st', stack')
    → check_run st stack (p ++ q) ≡ check_run st' stack' q
unfolding check_run
check_run-append [] q st stack h = ground arith
check_run-append (c ∷ p) q st stack h = elim (Option-cases (check_round st.in_string stack c)) [
  | inl e ↦ absurd (clash (rw (e, check_run) at h))
  | inr (stack', e) ↦
      rw (e, check_run) (check_run-append p q (scan st c) stack' (rw (e, check_run) at h))
]
  where
    clash : {A : Type 0} {a : A} → none ≡ some a → ⊥
    clash h = cc

-- Being escaped is being in a string.
abbrev pub IsScan : Scan → Type 0
IsScan st = st.escaped ≡ true → st.in_string ≡ true

pub scan-IsScan : (st : Scan) (c : ℕ) → IsScan st → IsScan (scan st c)
unfolding scan_flags
scan-IsScan st c h = ground arith
