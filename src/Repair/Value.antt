-- ===== src/Repair/Value.antt =====
-- `firstJsonValue` cuts one value out of the text around it.
use mathlib.Core.Path.{ap₂}
use dgx_spark_llm_platform.Base.{
  ℕ, suc, Bool, true, false, List, [], ◌∷◌, ◌++◌, Option, none, some, ◌≡◌, refl, sym, ap, ◌∙◌,
  arith, Option-cases, inl, inr, All, length, take, drop, append_assoc, length-append,
}
use dgx_spark_llm_platform.Base.Int.{pos}
use dgx_spark_llm_platform.Base.Text.{Text}
use dgx_spark_llm_platform.Repair.{
  Scan, outside, scan, scan_flags, is_opener, is_closer, depth_round, value_length, find_opener,
  first_json_value,
}
use dgx_spark_llm_platform.Repair.Check.{check_round, check_run}

abbrev IsPlain : ℕ → Type 0
IsPlain c = is_opener c ≡ false

find_opener_lem :
    (p : Text) (o : ℕ) (s : Text)
    → All IsPlain p
    → is_opener o ≡ true
    → find_opener (p ++ o ∷ s) ≡ some (length p)
unfolding find_opener
find_opener_lem [] o s h k = ground arith
find_opener_lem (c ∷ p) o s (q, h) k = ground (arith, find_opener_lem p o s h k)

drop-append {ℓ} : {A : Type ℓ} (p s : List A) → drop (length p) (p ++ s) ≡ s
drop-append [] s = refl
drop-append (c ∷ p) s = drop-append p s

take-append {ℓ} : {A : Type ℓ} (p s : List A) → take (length p) (p ++ s) ≡ p
take-append [] s = refl
take-append (c ∷ p) s = ap (◌∷◌ c) (take-append p s)

-- Through a balanced body the depth stays above the expected closers, so the count goes on.
depth_round_agrees :
    (b : Bool) (stack ks : List ℕ) (c : ℕ)
    → check_round b stack c ≡ some ks
    → depth_round b (pos (suc (length stack))) c ≡ (pos (suc (length ks)), false)
unfolding depth_round check_round
depth_round_agrees true stack ks c h = ground arith
depth_round_agrees false [] ks c h = ground arith
depth_round_agrees false (top ∷ stack) ks c h = ground arith

value_length_body :
    (body : Text) (st : Scan) (stack : List ℕ) (k : ℕ) (q : Text)
    → check_run st stack body ≡ some (outside, [])
    → is_closer k ≡ true
    → value_length st (pos (suc (length stack))) (body ++ k ∷ q) ≡ some (suc (length body))
unfolding value_length check_run
value_length_body [] st stack k q h closer = unfold depth_round in ground arith
value_length_body (c ∷ body) st stack k q h closer =
    elim (Option-cases (check_round st.in_string stack c)) [
      | inl e ↦ absurd (clash (rw (e, check_run) at h))
      | inr (ks, e) ↦
          rw
            (
              depth_round_agrees st.in_string stack ks c e,
              value_length_body body (scan st c) ks k q (rw (e, check_run) at h) closer,
            )
            refl
    ]
  where
    clash : ◌≡◌ {A = Option (Scan × List ℕ)} none (some (outside, [])) → ⊥
    clash h = cc

value_length_value :
    (o : ℕ) (body : Text) (k : ℕ) (q : Text)
    → is_opener o ≡ true
    → check_run outside [] body ≡ some (outside, [])
    → is_closer k ≡ true
    → value_length outside (pos 0) (o ∷ (body ++ k ∷ q)) ≡ some (suc (suc (length body)))
unfolding value_length
value_length_value o body k q h balanced closer =
    let first : depth_round false (pos 0) o ≡ (pos 1, false) = unfold depth_round in ground arith in
    let flags : scan outside o ≡ outside = unfold scan_flags in ground arith in
    rw (first, flags, value_length_body body outside [] k q balanced closer) refl

first_json_value_step :
    (src : Text) (start n : ℕ)
    → find_opener src ≡ some start
    → value_length outside (pos 0) (drop start src) ≡ some n
    → first_json_value src ≡ some (take n (drop start src))
unfolding first_json_value
first_json_value_step src start n h k = ground arith

-- One bracketed value, with a balanced text between its brackets, is cut out of any text: what
-- stands before it holds no opening bracket, and what stands behind it is anything.
pub first_json_value-cut :
    (before : Text) (o : ℕ) (body : Text) (k : ℕ) (behind : Text)
    → All IsPlain before
    → is_opener o ≡ true
    → is_closer k ≡ true
    → check_run outside [] body ≡ some (outside, [])
    → first_json_value (before ++ o ∷ (body ++ k ∷ behind)) ≡ some (o ∷ (body ++ k ∷ []))
first_json_value-cut before o body k behind plain h closer balanced =
    let rest = o ∷ (body ++ k ∷ behind) in
    let value = o ∷ (body ++ k ∷ []) in
    let at = drop-append before rest in
    let whole : value ++ behind ≡ rest = ap (◌∷◌ o) (append_assoc body (k ∷ []) behind) in
    let size : suc (suc (length body)) ≡ length value =
      omega (arith, length-append body (k ∷ [])) in
    first_json_value_step (before ++ rest) (length before) (suc (suc (length body)))
      (find_opener_lem before o (body ++ k ∷ behind) plain h)
      (rw at (value_length_value o body k behind h balanced closer))
    ∙ ap some (
        ap (take (suc (suc (length body)))) at
        ∙ ap₂ take size (sym whole)
        ∙ take-append value behind)
