-- ===== src/Repair/Closings.antt =====
-- What `repairClosings` returns is balanced.
use dgx_spark_llm_platform.Base.{
  ℕ, Bool, true, false, List, [], ◌∷◌, some, ◌≡◌, refl, ◌∙◌, arith, ◌==◌, if◌then◌else◌, Bool-cases,
  inl, inr, All, any,
}
use dgx_spark_llm_platform.Base.Text.{Text}
use dgx_spark_llm_platform.Repair.{
  Scan, outside, scan, scan_flags, quote, is_opener, is_closer, closer_of, close_to, repair_round,
  repair_from,
}
use dgx_spark_llm_platform.Repair.Check.{check_run, scan_all, check_run-append}

abbrev pub IsCloser : ℕ → Type 0
IsCloser c = is_closer c ≡ true

check_run_closer :
    (e : Bool) (c : ℕ) (stack : List ℕ) (s : Text)
    → IsCloser c
    → check_run (record { in_string = false; escaped = e }) (c ∷ stack) (c ∷ s)
      ≡ check_run (record { in_string = false; escaped = e }) stack s
unfolding check_run
check_run_closer e c stack s h = ground arith

check_run-close_to :
    (e : Bool) (c : ℕ) (stack : List ℕ)
    → All IsCloser stack
    → any (λ d. d == c) stack ≡ true
    → check_run (record { in_string = false; escaped = e }) stack (close_to c stack).0
      ≡ some (record { in_string = false; escaped = e }, (close_to c stack).1)
unfolding close_to
check_run-close_to e c [] h k = cc
check_run-close_to e c (top ∷ stack) (p, h) k = elim (Bool-cases (top == c)) [
  | inl found ↦ rw (found) (check_run_closer e top stack [] p ∙ unfold check_run in refl)
  | inr more ↦
      rw (more) (check_run_closer e top stack _ p ∙ check_run-close_to e c stack h (ground arith))
]

-- The characters that are written as they are.
check_run_kept :
    (e : Bool) (stack : List ℕ) (c : ℕ)
    → is_closer c ≡ false
    → check_run (record { in_string = false; escaped = e }) stack (c ∷ [])
      ≡ some (
        scan (record { in_string = false; escaped = e }) c,
        (if c == quote then stack else if is_opener c then closer_of c ∷ stack else stack),
      )
unfolding check_run
check_run_kept e [] c h = ground arith
check_run_kept e (top ∷ stack) c h = ground arith

scan_closer :
    (e : Bool) (c : ℕ)
    → is_closer c ≡ true
    → scan (record { in_string = false; escaped = e }) c ≡ record { in_string = false; escaped = e }
unfolding scan_flags
scan_closer e c h = ground arith

-- One round writes what the checker takes from the round's state to the next.
pub check_run-repair_round :
    (b e : Bool) (stack : List ℕ) (c : ℕ)
    → All IsCloser stack
    → check_run (record { in_string = b; escaped = e }) stack (repair_round b stack c).0
      ≡ some (scan (record { in_string = b; escaped = e }) c, (repair_round b stack c).1)
check_run-repair_round true e stack c h = unfold check_run repair_round in refl
check_run-repair_round false e stack c h = elim (Bool-cases (is_closer c)) [
  | inr other ↦ unfold repair_round in ground (arith, check_run_kept e stack c other)
  | inl closer ↦ elim (Bool-cases (any (λ d. d == c) stack)) [
    | inl found ↦
        unfold repair_round in
        ground (arith, check_run-close_to e c stack h found, scan_closer e c closer)
    | inr orphan ↦ unfold repair_round check_run in ground (arith, scan_closer e c closer)
  ]
]

All-close_to : (c : ℕ) (stack : List ℕ) → All IsCloser stack → All IsCloser (close_to c stack).1
unfolding close_to
All-close_to c [] h = tt
All-close_to c (top ∷ stack) (p, h) = ground (arith, All-close_to c stack h)

pub All-repair_round :
    (b : Bool) (stack : List ℕ) (c : ℕ)
    → All IsCloser stack
    → All IsCloser (repair_round b stack c).1
unfolding repair_round
All-repair_round true stack c h = h
All-repair_round false stack c h = ground (arith, All-close_to c stack h)

pub check_run_rest :
    (e : Bool) (stack : List ℕ)
    → All IsCloser stack
    → check_run (record { in_string = false; escaped = e }) stack stack
      ≡ some (record { in_string = false; escaped = e }, [])
check_run_rest e [] h = unfold check_run in refl
check_run_rest e (c ∷ stack) (p, h) = check_run_closer e c stack stack p ∙ check_run_rest e stack h

-- The end of the text: the string is closed, and then all that is open.
check_run_end :
    (b e : Bool) (stack : List ℕ)
    → All IsCloser stack
    → e ≡ false
    → check_run (record { in_string = b; escaped = e }) stack (if b then quote ∷ stack else stack)
      ≡ some (outside, [])
check_run_end b true stack h f = cc
check_run_end true false stack h f =
    unfold check_run in unfold scan_flags in check_run_rest false stack h
check_run_end false false stack h f = check_run_rest false stack h

pub check_run-repair_from :
    (src : Text) (st : Scan) (stack : List ℕ)
    → All IsCloser stack
    → (scan_all st src).escaped ≡ false
    → check_run st stack (repair_from st stack src) ≡ some (outside, [])
unfolding repair_from scan_all
check_run-repair_from [] st stack h f = check_run_end st.in_string st.escaped stack h f
check_run-repair_from (c ∷ src) st stack h f =
    let round = repair_round st.in_string stack c in
    check_run-append round.0 (repair_from (scan st c) round.1 src) st stack
      (check_run-repair_round st.in_string st.escaped stack c h)
    ∙ check_run-repair_from src (scan st c) round.1 (All-repair_round st.in_string stack c h) f
