-- ===== src/Repair/Balance.antt =====
-- `balanceJson` completes a truncated text.
use dgx_spark_llm_platform.Base.{
  ℕ, Bool, true, false, ◌&&◌, List, [], ◌∷◌, ◌++◌, Option, none, some, ◌≡◌, refl, sym, ap, ◌∙◌,
  arith, ◌==◌, if◌then◌else◌, Option-cases, Bool-cases, inl, inr, All, map,
}
use dgx_spark_llm_platform.Base.Text.{Text, is_blank}
use dgx_spark_llm_platform.Repair.{
  Scan, outside, scan, scan_flags, quote, comma, closer_of, trim_comma, pop, balance_round,
  balance_scan, close_all, balance_json,
}
use dgx_spark_llm_platform.Repair.Check.{check_round, check_run, IsBalanced, check_run-append}
use dgx_spark_llm_platform.Repair.Closings.{IsCloser, check_run_rest}
use dgx_spark_llm_platform.Repair.Commas.{IsIdle, space-IsIdle, comma-IsIdle}

abbrev closers : List ℕ → List ℕ
closers = map closer_of

All-closers : (stack : List ℕ) → All IsCloser (closers stack)
All-closers [] = tt
All-closers (c ∷ stack) = (ground arith, All-closers stack)

close_all-closers : (stack : List ℕ) → close_all stack ≡ closers stack
unfolding close_all
close_all-closers [] = refl
close_all-closers (c ∷ stack) = ap (◌∷◌ (closer_of c)) (close_all-closers stack)

-- On a text whose closers all match, the loop's stack and the checker's agree.
round_agrees :
    (b : Bool) (stack ks : List ℕ) (c : ℕ)
    → check_round b (closers stack) c ≡ some ks
    → ks ≡ closers (balance_round b stack c)
unfolding check_round balance_round
round_agrees true stack ks c h = ground arith
round_agrees false [] ks c h = unfold pop in ground arith
round_agrees false (top ∷ stack) ks c h = unfold pop in ground arith

scan_agrees :
    (s : Text) (st st' : Scan) (stack ks : List ℕ)
    → check_run st (closers stack) s ≡ some (st', ks)
    → ((balance_scan st stack s).0 ≡ st') × (ks ≡ closers (balance_scan st stack s).1)
unfolding check_run balance_scan
scan_agrees [] st st' stack ks h = ground arith
scan_agrees (c ∷ s) st st' stack ks h =
    elim (Option-cases (check_round st.in_string (closers stack) c)) [
      | inl e ↦ absurd (clash (rw (e, check_run) at h))
      | inr (next, e) ↦
          scan_agrees s (scan st c) st' (balance_round st.in_string stack c) ks
            (rw (← round_agrees st.in_string stack next c e) (rw (e, check_run) at h))
    ]
  where
    clash : ◌≡◌ {A = Option (Scan × List ℕ)} none (some (st', ks)) → ⊥
    clash h = cc

-- What the loop keeps across an idle character, up to the escape.
idle_round : (b : Bool) (stack : List ℕ) (c : ℕ) → IsIdle c → balance_round b stack c ≡ stack
unfolding balance_round
idle_round true stack c h = refl
idle_round false stack c h = ground arith

idle_scan : (st : Scan) (c : ℕ) → IsIdle c → (scan st c).in_string ≡ st.in_string
unfolding scan_flags
idle_scan st c h = ground arith

blank_scan :
    (s : Text) (st : Scan) (stack : List ℕ)
    → is_blank s ≡ true
    → ((balance_scan st stack s).0.in_string ≡ st.in_string) × ((balance_scan st stack s).1 ≡ stack)
unfolding balance_scan is_blank
blank_scan [] st stack h = (refl, refl)
blank_scan (c ∷ s) st stack h =
    let idle = space-IsIdle c (ground arith) in
    let (p, q) = blank_scan s (scan st c) (balance_round st.in_string stack c) (ground arith) in
    (p ∙ idle_scan st c idle, q ∙ idle_round st.in_string stack c idle)

-- The trailing comma and the space behind it do not move the stack.
trim_scan :
    (s : Text) (st : Scan) (stack : List ℕ)
    → ((balance_scan st stack s).0.in_string ≡ (balance_scan st stack (trim_comma s)).0.in_string)
      × ((balance_scan st stack s).1 ≡ (balance_scan st stack (trim_comma s)).1)
unfolding trim_comma balance_scan
trim_scan [] st stack = (refl, refl)
trim_scan (c ∷ s) st stack = elim (Bool-cases ((c == comma) && is_blank s)) [
  | inl last ↦
      let idle = comma-IsIdle c (ground arith) in
      let (p, q) = blank_scan s (scan st c) (balance_round st.in_string stack c) (ground arith) in
      rw last (p ∙ idle_scan st c idle, q ∙ idle_round st.in_string stack c idle)
  | inr other ↦ rw other (trim_scan s (scan st c) (balance_round st.in_string stack c))
]

finish :
    (st : Scan) (stack : List ℕ)
    → st.escaped ≡ false
    → check_run st (closers stack) ((if st.in_string then quote ∷ [] else []) ++ close_all stack)
      ≡ some (outside, [])
finish st stack h = rw (close_all-closers stack) (go st.in_string st.escaped h)
  where
    go :
        (b e : Bool)
        → e ≡ false
        → check_run
            (record { in_string = b; escaped = e })
            (closers stack)
            ((if b then quote ∷ [] else []) ++ closers stack)
          ≡ some (outside, [])
    go b true h = cc
    go true false h =
        unfold check_run scan_flags in check_run_rest false (closers stack) (All-closers stack)
    go false false h = check_run_rest false (closers stack) (All-closers stack)

-- A text whose closers all match so far, and that does not stop behind an escaping backslash once
-- its trailing comma is dropped, is completed to a balanced text, which begins with the text less
-- that comma.
pub balance_json-IsBalanced :
    (src : Text) (st : Scan) (open_closers : List ℕ)
    → check_run outside [] (trim_comma src) ≡ some (st, open_closers)
    → st.escaped ≡ false
    → IsBalanced (balance_json src)
      × ((added : Text) × (balance_json src ≡ trim_comma src ++ added))
unfolding balance_json
balance_json-IsBalanced src st open_closers h e =
    let (p, q) = trim_scan src outside [] in
    let (p', q') = scan_agrees (trim_comma src) outside st [] open_closers h in
    let result = balance_scan outside [] src in
    let in_string : result.0.in_string ≡ st.in_string = p ∙ ap (λ (s : Scan). s.in_string) p' in
    let stack : open_closers ≡ closers result.1 = q' ∙ ap closers (sym q) in
    (
      check_run-append (trim_comma src) _ outside [] h
          ∙ rw (in_string, stack) (finish st result.1 e),
      (((if result.0.in_string then quote ∷ [] else []) ++ close_all result.1), refl),
    )
