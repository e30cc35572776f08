-- ===== src/Rejoin/Overlap.antt =====
-- What `joinLine` absorbs: a repetition of the end of the file, and nothing else.
use dgx_spark_llm_platform.Base.{
  ℕ, zero, suc, ◌-◌, ◌≤◌, min, true, [], ◌∷◌, ◌++◌, append_assoc, any, length, take, drop,
  take-append-drop, ltb, ◌==◌, ◌≡◌, refl, sym, ap, ◌∙◌, ◌⊎◌, inl, inr, arith, Bool-cases,
}
use dgx_spark_llm_platform.Base.Text.{Text, text_eq_sound, is_blank, newline}
use dgx_spark_llm_platform.Rejoin.{last_line, first_line, ends_with, overlap, join_line}

last_line_lem : (s : Text) → (before : Text) × (s ≡ before ++ last_line s)
unfolding last_line
last_line_lem [] = ([], refl)
last_line_lem (c ∷ s) =
    let (before, e) = last_line_lem s in
    elim (Bool-cases (any (λ d. d == newline) s)) [
      | inl h ↦ rw h ((c ∷ before), ap (◌∷◌ c) e)
      | inr h ↦ elim (Bool-cases (c == newline)) [
        | inl k ↦ rw (h, k) ((c ∷ []), refl)
        | inr k ↦ rw (h, k) ([], refl)
      ]
    ]

take-first_line : (k : ℕ) (s : Text) → k ≤ length (first_line s) → take k (first_line s) ≡ take k s
unfolding first_line
take-first_line zero s h = refl
take-first_line (suc k) [] h = refl
take-first_line (suc k) (c ∷ s) h = elim (Bool-cases (c == newline)) [
  | inl e ↦ absurd (ground arith)
  | inr e ↦ rw e (ap (◌∷◌ c) (take-first_line k s (ground arith)))
]

ends_with_sound : (s p : Text) → ends_with s p ≡ true → (before : Text) × (s ≡ before ++ p)
unfolding ends_with
ends_with_sound s p h =
    let n = length s - length p in
    (
      take n s,
      sym (take-append-drop n s)
          ∙ ap (λ q. take n s ++ q) (text_eq_sound (drop n s) p (ground arith)),
    )

-- The length that the loop stops at.
abbrev Repeats : Text → Text → ℕ → Type 0
Repeats end head k =
    (k ≤ length head) × ((k ≡ 0) ⊎ ((3 ≤ k) × ((before : Text) × (end ≡ before ++ take k head))))

overlap-Repeats :
    (end head : Text) (k : ℕ) → k ≤ length head → Repeats end head (overlap end head k)
unfolding overlap
overlap-Repeats end head zero h = (omega arith, inl refl)
overlap-Repeats end head (suc k) h = elim (Bool-cases (ltb (suc k) 3)) [
  | inl few ↦ rw few (omega arith, inl refl)
  | inr more ↦ elim (Bool-cases (ends_with end (take (suc k) head))) [
    | inl e ↦ rw (more, e) (h, inr (ground arith, ends_with_sound end (take (suc k) head) e))
    | inr e ↦ rw (more, e) (overlap-Repeats end head k (omega arith))
  ]
]

-- A repetition of the last line by the first one is a repetition of the file by the continuation.
widen :
    (base continuation : Text) (k : ℕ)
    → Repeats (last_line base) (first_line continuation) k
    → (k ≡ 0) ⊎ ((3 ≤ k) × ((before : Text) × (base ≡ before ++ take k continuation)))
widen base continuation k (fits, inl none_of_it) = inl none_of_it
widen base continuation k (fits, inr (three, (within, e))) =
    let (lines, f) = last_line_lem base in
    inr (
      three,
      (
        lines ++ within,
        f
            ∙ ap (λ l. lines ++ l) (e ∙ ap (λ h. within ++ h) (take-first_line k continuation fits))
            ∙ sym (append_assoc lines within (take k continuation)),
      ),
    )

-- `joinLine` keeps the whole file and puts the continuation behind it, less its first `k`
-- characters: none, or at least three that repeat the end of the file.
pub join_line_lem :
    (base continuation : Text)
    → (k : ℕ) × (join_line base continuation ≡ base ++ drop k continuation)
      × ((k ≡ 0) ⊎ ((3 ≤ k) × ((before : Text) × (base ≡ before ++ take k continuation))))
unfolding join_line
join_line_lem base continuation = elim (Bool-cases (is_blank (last_line base))) [
  | inl blank ↦ rw blank (0, refl, inl refl)
  | inr written ↦ rw written (
      let end = last_line base in
      let head = first_line continuation in
      let most = min (length end) (length head) in
      let k = overlap end head most in
      (k, refl, widen base continuation k (overlap-Repeats end head most (omega arith))))
]
