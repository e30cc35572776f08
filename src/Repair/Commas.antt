-- ===== src/Repair/Commas.antt =====
-- Dropping the dangling commas changes nothing for the checker.
use dgx_spark_llm_platform.Base.{
  ℕ, Bool, true, false, ◌&&◌, List, [], ◌∷◌, ◌≡◌, refl, sym, ap, ◌∙◌, arith, ◌==◌, Option-cases,
  Bool-cases, inl, inr, ◌⊎◌, ==_iff,
}
use dgx_spark_llm_platform.Base.Text.{Text, is_space}
use dgx_spark_llm_platform.Repair.{
  Scan, scan, scan_flags, quote, backslash, comma, is_opener, is_closer, closes_next, drop_commas,
}
use dgx_spark_llm_platform.Repair.Check.{check_round, check_run}

-- White space is none of the characters that a test names.
space-ne : (k c : ℕ) → is_space k ≡ false → is_space c ≡ true → (c == k) ≡ false
space-ne k c p q = ground (arith, ==_iff c k)

-- A character that plays no part.
abbrev pub IsIdle : ℕ → Type 0
IsIdle c =
    ((c == quote) ≡ false)
    × ((c == backslash) ≡ false)
    × (is_opener c ≡ false)
    × (is_closer c ≡ false)

pub space-IsIdle : (c : ℕ) → is_space c ≡ true → IsIdle c
unfolding is_space
space-IsIdle c h =
    let q = space-ne quote c refl h in
    let b = space-ne backslash c refl h in
    let o = space-ne b'{' c refl h in
    let o' = space-ne b'[' c refl h in
    let k = space-ne b'}' c refl h in
    let k' = space-ne b']' c refl h in (q, b, rw (o, o') refl, rw (k, k') refl)

pub comma-IsIdle : (c : ℕ) → (c == comma) ≡ true → IsIdle c
comma-IsIdle c h = ground arith

-- The flags of the shortened text may lag by one escape behind those of the whole text.
abbrev pub Lags : Scan → Scan → Type 0
Lags short long =
    (short ≡ long)
    ⊎ (short ≡ record { in_string = true; escaped = true })
      × (long ≡ record { in_string = true; escaped = false })

pub check_run_idle :
    (st : Scan) (stack : List ℕ) (c : ℕ) (s : Text)
    → IsIdle c
    → check_run st stack (c ∷ s) ≡ check_run (scan st c) stack s
unfolding check_run
check_run_idle st [] c s h = ground arith
check_run_idle st (top ∷ stack) c s h = ground arith

Lags-idle : (short long : Scan) (c : ℕ) → IsIdle c → Lags short long → Lags short (scan long c)
unfolding scan_flags
Lags-idle short long c h (inl e) = ground arith
Lags-idle short long c h (inr e) = ground arith

check_run_closer_lag :
    (short long : Scan) (stack : List ℕ) (c : ℕ)
    → is_closer c ≡ true
    → Lags short long
    → (check_round short.in_string stack c ≡ check_round long.in_string stack c)
      × (scan short c ≡ scan long c)
unfolding scan_flags
check_run_closer_lag short long stack c h (inl e) =
    (ap (λ (s : Scan). check_round s.in_string stack c) e, ap (λ s. scan s c) e)
check_run_closer_lag short long stack c h (inr (e, f)) = rw (e, f) (refl, ground arith)

abbrev pub Ready : Bool → Text → Scan → Scan → Type 0
Ready false s short long = short ≡ long
Ready true s short long = (closes_next s ≡ true) × Lags short long

check_run_both :
    (short long : Scan) (stack : List ℕ) (c : ℕ) (s t : Text)
    → check_round short.in_string stack c ≡ check_round long.in_string stack c
    → scan short c ≡ scan long c
    → ((stack' : List ℕ) → check_run (scan long c) stack' t ≡ check_run (scan long c) stack' s)
    → check_run short stack (c ∷ t) ≡ check_run long stack (c ∷ s)
unfolding check_run
check_run_both short long stack c s t e f ih =
    elim (Option-cases (check_round long.in_string stack c)) [
      | inl none_left ↦ ground arith
      | inr (stack', found) ↦ ground (arith, ih stack')
    ]

Ready-space :
    (c : ℕ) (s : Text) (short long : Scan)
    → is_space c ≡ true
    → Ready true (c ∷ s) short long
    → Ready true s short (scan long c)
unfolding closes_next
Ready-space c s short long h (k, l) = (rw h at k, Lags-idle short long c (space-IsIdle c h) l)

Ready-closer :
    (c : ℕ) (s : Text) (short long : Scan)
    → is_space c ≡ false
    → Ready true (c ∷ s) short long
    → is_closer c ≡ true
unfolding closes_next
Ready-closer c s short long h (k, l) = rw h at k

-- A character that is dropped, and one that is kept.
step_dropped :
    (s t : Text) (c : ℕ) (short long : Scan) (stack : List ℕ)
    → IsIdle c
    → check_run short stack t ≡ check_run (scan long c) stack s
    → check_run short stack t ≡ check_run long stack (c ∷ s)
step_dropped s t c short long stack h e = e ∙ sym (check_run_idle long stack c s h)

pub check_run-drop_commas :
    (s : Text) (skipping : Bool) (short long : Scan) (stack : List ℕ)
    → Ready skipping s short long
    → check_run short stack (drop_commas skipping s) ≡ check_run long stack s
unfolding drop_commas
check_run-drop_commas [] true short long stack (k, l) = absurd (closed k)
  where
    closed : closes_next [] ≡ true → ⊥
    closed h = unfold closes_next in cc
check_run-drop_commas [] false short long stack h = rw h refl
check_run-drop_commas (c ∷ s) true short long stack h = elim (Bool-cases (is_space c)) [
  | inl space ↦ rw space (
      step_dropped s _ c short long stack (space-IsIdle c space) (
        check_run-drop_commas s true short (scan long c) stack
          (Ready-space c s short long space h)))
  | inr other ↦
      let closer = Ready-closer c s short long other h in
      let not_comma : (c == comma) ≡ false = ground arith in
      let (round, flags) = check_run_closer_lag short long stack c closer h.1 in
      rw (other, not_comma)
        (check_run_both short long stack c s _ round flags
          (λ stack'. check_run-drop_commas s false (scan long c) (scan long c) stack' refl))
]
check_run-drop_commas (c ∷ s) false short long stack h =
    elim (Bool-cases ((c == comma) && closes_next s)) [
      | inl gap ↦
          let idle = comma-IsIdle c (ground arith) in
          rw gap (
            step_dropped s _ c short long stack idle (
              check_run-drop_commas s true short (scan long c) stack
                (ground arith, Lags-idle short long c idle (inl h))))
      | inr other ↦
          rw (other, h)
            (check_run_both long long stack c s _ refl refl
              (λ stack'. check_run-drop_commas s false (scan long c) (scan long c) stack' refl))
    ]
