-- ===== src/Repair/Result.antt =====
-- `repairClosings` as a whole: when its result is balanced, and what it leaves alone.
use dgx_spark_llm_platform.Base.{
  ℕ, Bool, true, false, List, [], ◌∷◌, Option, none, some, ◌≡◌, ◌↔◌, refl, sym, ap, ◌∙◌, arith,
  Option-cases, Bool-cases, inl, inr, ◌⊎◌, All,
}
use dgx_spark_llm_platform.Base.Text.{Text}
use dgx_spark_llm_platform.Repair.{
  Scan, outside, scan, scan_flags, drop_commas, repair_from, repair_round, close_to,
  repair_closings,
}
use dgx_spark_llm_platform.Repair.Check.{
  check_round, check_run, IsBalanced, EndsEscaped, scan_all, IsScan, scan-IsScan, check_run-append,
}
use dgx_spark_llm_platform.Repair.Closings.{
  IsCloser, check_run-repair_from, check_run-repair_round, All-repair_round,
}
use dgx_spark_llm_platform.Repair.Commas.{check_run-drop_commas}

scan_all-IsScan : (s : Text) (st : Scan) → IsScan st → IsScan (scan_all st s)
unfolding scan_all
scan_all-IsScan [] st h = h
scan_all-IsScan (c ∷ s) st h = scan_all-IsScan s (scan st c) (scan-IsScan st c h)

-- A text stops behind an escaping backslash, or its last flags are not escaped.
escaped_or_not : (s : Text) → EndsEscaped s ⊎ ((scan_all outside s).escaped ≡ false)
escaped_or_not s = go (scan_all outside s) (scan_all-IsScan s outside (λ e. cc))
  where
    go :
        (st : Scan)
        → IsScan st
        → (st ≡ record { in_string = true; escaped = true }) ⊎ (st.escaped ≡ false)
    go st h = elim (Bool-cases st.escaped) [ inl e ↦ inl (ground (arith, h e)) | inr e ↦ inr e ]

-- Inside a string closers are text.
check_run_string :
    (e : Bool) (s : Text) (stack : List ℕ)
    → All IsCloser s
    → check_run (record { in_string = true; escaped = false }) stack s
      ≡ some (record { in_string = true; escaped = false }, stack)
unfolding check_run
check_run_string e [] stack h = refl
check_run_string e (c ∷ s) stack (p, h) =
    let same_flags : scan (record { in_string = true; escaped = false }) c
        ≡ record { in_string = true; escaped = false } =
      unfold scan_flags in ground arith in
    rw same_flags (check_run_string e s stack h)

stuck_end :
    (src : Text) (st : Scan) (stack : List ℕ)
    → All IsCloser stack
    → scan_all st src ≡ record { in_string = true; escaped = true }
    → (rest : List ℕ) × (check_run st stack (repair_from st stack src)
        ≡ some (record { in_string = true; escaped = false }, rest))
unfolding repair_from scan_all
stuck_end [] st stack h e =
    (stack, rw e (unfold check_run scan_flags in check_run_string true stack stack h))
stuck_end (c ∷ src) st stack h e =
    let round = repair_round st.in_string stack c in
    let (rest, p) = stuck_end src (scan st c) round.1 (All-repair_round st.in_string stack c h) e in
    (
      rest,
      check_run-append round.0 (repair_from (scan st c) round.1 src) st stack
            (check_run-repair_round st.in_string st.escaped stack c h)
          ∙ p,
    )

-- For every text, what `repairClosings` returns is balanced exactly when the text does not stop
-- inside a string right behind an escaping backslash.
pub repair_closings-IsBalanced_iff :
    (src : Text) → IsBalanced (repair_closings src) ↔ (¬ EndsEscaped src)
unfolding repair_closings
repair_closings-IsBalanced_iff src =
    let commas = check_run-drop_commas (repair_from outside [] src) false outside outside [] refl in
    (
      λ balanced stops.
          let (rest, p) = stuck_end src outside [] tt stops in
          clash rest (sym p ∙ sym commas ∙ balanced),
      λ goes_on. elim (escaped_or_not src) [
        | inl stops ↦ absurd (goes_on stops)
        | inr e ↦ commas ∙ check_run-repair_from src outside [] tt e
      ],
    )
  where
    clash :
        (rest : List ℕ)
        → ◌≡◌ {A = Option (Scan × List ℕ)}
            (some (record { in_string = true; escaped = false }, rest))
            (some (outside, []))
        → ⊥
    clash rest h = cc

repair_round_balanced :
    (b : Bool) (stack stack' : List ℕ) (c : ℕ)
    → check_round b stack c ≡ some stack'
    → repair_round b stack c ≡ (c ∷ [], stack')
unfolding repair_round check_round
repair_round_balanced true stack stack' c h = ground arith
repair_round_balanced false [] stack' c h = ground arith
repair_round_balanced false (top ∷ stack) stack' c h = unfold close_to in ground arith

repair_from_balanced :
    (src : Text) (st : Scan) (stack : List ℕ)
    → check_run st stack src ≡ some (outside, [])
    → repair_from st stack src ≡ src
unfolding repair_from check_run
repair_from_balanced [] st stack h = ground arith
repair_from_balanced (c ∷ src) st stack h = elim (Option-cases (check_round st.in_string stack c)) [
  | inl e ↦ absurd (clash (rw (e, check_run) at h))
  | inr (stack', e) ↦
      let round = repair_round_balanced st.in_string stack stack' c e in
      rw (round) (ap (◌∷◌ c) (repair_from_balanced src (scan st c) stack' (rw (e, check_run) at h)))
]
  where
    clash : ◌≡◌ {A = Option (Scan × List ℕ)} none (some (outside, [])) → ⊥
    clash h = cc

-- A text that is balanced already loses its dangling commas and keeps all else.
pub repair_closings_balanced :
    (src : Text) → IsBalanced src → repair_closings src ≡ drop_commas false src
unfolding repair_closings
repair_closings_balanced src h = ap (drop_commas false) (repair_from_balanced src outside [] h)
