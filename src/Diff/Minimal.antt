-- ===== src/Diff/Minimal.antt =====
-- The diff keeps as many lines as any alignment of the two texts could.
use mathlib.Core.Path.{ap₂}
use dgx_spark_llm_platform.Base.{
  ℕ, zero, suc, ◌+◌, ◌*◌, ◌<◌, ◌≤◌, ◌^◌, List, [], ◌∷◌, ◌++◌, ◌≡◌, refl, sym, ◌∙◌, arith, length,
  take, drop, slice, append_assoc, append-nil, length-take, length-drop, drop-length,
}
use dgx_spark_llm_platform.Base.Text.{Text, text_eq_refl, split, newline}
use dgx_spark_llm_platform.Diff.{
  same, DiffLine, fill_table, cell, walk, middle, max_cells, diff_lists, common_start, trim_end,
  head_lines, tail_lines, diff_lines,
}
use dgx_spark_llm_platform.Diff.Table.{lcs_len, lcs_len-nil, fill_table_lem, Sub, lcs_len-max}
use dgx_spark_llm_platform.Diff.Reconstruct.{parts_of}
use dgx_spark_llm_platform.Diff.Sides.{common_start_lem, trim_end-Trimmed}

-- How many lines a diff keeps.
abbrev pub kept : List DiffLine → ℕ
kept [] = 0
kept (l ∷ ls) = let rest = kept ls in elim l.kind [ same ↦ rest + 1 | _ ↦ rest ]

kept-append : (p q : List DiffLine) → kept (p ++ q) ≡ kept p + kept q
kept-append [] q = omega arith
kept-append (l ∷ p) q = ground (arith, kept-append p q)

drop_next {ℓ} :
    {A : Type ℓ} (i : ℕ) (xs : List A) {x : A} {ys : List A}
    → drop i xs ≡ x ∷ ys
    → drop (i + 1) xs ≡ ys
drop_next zero [] h = cc
drop_next zero (x ∷ xs) h = ground arith
drop_next (suc i) [] h = cc
drop_next (suc i) (x ∷ xs) h = ground (arith, drop_next i xs h)

-- The walk over the rest of two lists whose table it reads.
module _ (start : ℕ) (table : List (List ℕ)) (ma mb : List Text)
    (exact : (i j : ℕ) → cell table i j ≡ lcs_len (drop i ma) (drop j mb)) where
  kept-walk :
      (a b : List Text) (i j : ℕ)
      → drop i ma ≡ a
      → drop j mb ≡ b
      → kept (walk table start a b i j) ≡ lcs_len a b
  unfolding walk lcs_len
  kept-walk [] [] i j p q = refl
  kept-walk [] (y ∷ b) i j p q = kept-walk [] b i (j + 1) p (drop_next j mb q)
  kept-walk (x ∷ a) [] i j p q = kept-walk a [] (i + 1) j (drop_next i ma p) q ∙ lcs_len-nil a
  kept-walk (x ∷ a) (y ∷ b) i j p q =
      let p' = drop_next i ma p in
      let q' = drop_next j mb q in
      let below : cell table (i + 1) j ≡ lcs_len a (y ∷ b) = rw (exact (i + 1) j, p', q) refl in
      let right : cell table i (j + 1) ≡ lcs_len (x ∷ a) b = rw (exact i (j + 1), p, q') refl in
      ground (
        arith,
        below,
        right,
        kept-walk a b (i + 1) (j + 1) p' q',
        kept-walk (x ∷ a) b i (j + 1) p q',
        kept-walk a (y ∷ b) (i + 1) j p' q,
      )

kept-walk-nil :
    (table : List (List ℕ)) (start : ℕ) (b : List Text) (i j : ℕ)
    → kept (walk table start [] b i j) ≡ 0
unfolding walk
kept-walk-nil table start [] i j = refl
kept-walk-nil table start (y ∷ b) i j = kept-walk-nil table start b i (j + 1)

kept-middle :
    (ma mb : List Text) (start : ℕ)
    → length ma * length mb ≤ max_cells
    → kept (middle ma mb start) ≡ lcs_len ma mb
unfolding middle lcs_len
kept-middle [] mb start h = ground (arith, kept-walk-nil (fill_table [] mb) start mb 0 0)
kept-middle (x ∷ ma) mb start h =
    let small : length mb < 2 ^ 32 = grind arith in
    ground (
      arith,
      kept-walk start (fill_table (x ∷ ma) mb) (x ∷ ma) mb (fill_table_lem (x ∷ ma) mb small)
          (x ∷ ma) mb 0 0 refl refl,
    )

kept-head_lines : (a : List Text) (i n : ℕ) → kept (head_lines a i n) ≡ n
unfolding head_lines
kept-head_lines a i zero = refl
kept-head_lines a i (suc n) = omega (arith, kept-head_lines a (i + 1) n)

kept-tail_lines : (a : List Text) (k ea eb : ℕ) → kept (tail_lines a k ea eb) ≡ length a
unfolding tail_lines
kept-tail_lines [] k ea eb = refl
kept-tail_lines (x ∷ a) k ea eb = omega (arith, kept-tail_lines a (k + 1) ea eb)

-- A common start is part of a longest common subsequence, and so is a common end.
lcs_len-prefix : (p a b : List Text) → lcs_len (p ++ a) (p ++ b) ≡ length p + lcs_len a b
unfolding lcs_len
lcs_len-prefix [] a b = omega arith
lcs_len-prefix (x ∷ p) a b = ground (arith, text_eq_refl x, lcs_len-prefix p a b)

lcs_len-last : (z : Text) (a b : List Text) → lcs_len (a ++ z ∷ []) (b ++ z ∷ []) ≡ lcs_len a b + 1
unfolding lcs_len
lcs_len-last z [] [] = ground (arith, text_eq_refl z)
lcs_len-last z [] (y ∷ b) = ground (arith, lcs_len-last z [] b)
lcs_len-last z (x ∷ a) [] =
    ground (arith, lcs_len-last z a [], lcs_len-nil a, lcs_len-nil (a ++ z ∷ []))
lcs_len-last z (x ∷ a) (y ∷ b) =
    ground (arith, lcs_len-last z a b, lcs_len-last z a (y ∷ b), lcs_len-last z (x ∷ a) b)

lcs_len-suffix : (s a b : List Text) → lcs_len (a ++ s) (b ++ s) ≡ lcs_len a b + length s
lcs_len-suffix [] a b = rw (append-nil a, append-nil b) (omega arith)
lcs_len-suffix (z ∷ s) a b =
    rw (← append_assoc a (z ∷ []) s, ← append_assoc b (z ∷ []) s)
      (omega (arith, lcs_len-suffix s (a ++ z ∷ []) (b ++ z ∷ []), lcs_len-last z a b))

length-slice-le {ℓ} : {A : Type ℓ} (s e : ℕ) (xs : List A) → length (slice s e xs) ≤ length xs
length-slice-le s e xs = omega (arith, length-drop s (take e xs), length-take e xs)

kept-diff_lists :
    (a b : List Text) → length a * length b ≤ max_cells → kept (diff_lists a b) ≡ lcs_len a b
unfolding diff_lists
kept-diff_lists a b small =
    let s = common_start a b in
    let (same_start, fits_a, fits_b) = common_start_lem a b in
    let ea = (trim_end a b s (length a) (length b)).0 in
    let eb = (trim_end a b s (length a) (length b)).1 in
    let (sa, sb, la, lb, same_end) =
      trim_end-Trimmed a b s (length a) (length b)
        (fits_a, fits_b, omega arith, omega arith, drop-length a ∙ sym (drop-length b)) in
    let ma = slice s ea a in
    let mb = slice s eb b in
    let fits_ma = length-slice-le s ea a in
    let fits_mb = length-slice-le s eb b in
    let fits : length ma * length mb ≤ max_cells =
      product-le (length ma) (length mb) (length a) (length b) fits_ma fits_mb small in
    let counted : lcs_len a b ≡ s + (lcs_len ma mb + length (drop ea a)) =
      aligned a b s ea eb same_start same_end sa sb fits_a in
    rw (
      kept-append,
      kept-head_lines a 0 s,
      kept-append,
      kept-middle ma mb s fits,
      kept-tail_lines (drop ea a) ea ea eb,
      counted,
    )
  where
    product-le : (m n k l : ℕ) → m ≤ k → n ≤ l → k * l ≤ max_cells → m * n ≤ max_cells
    product-le m n k l p q h = grind arith

    aligned :
        (a b : List Text) (s ea eb : ℕ)
        → take s a ≡ take s b
        → drop ea a ≡ drop eb b
        → s ≤ ea
        → s ≤ eb
        → s ≤ length a
        → lcs_len a b ≡ s + (lcs_len (slice s ea a) (slice s eb b) + length (drop ea a))
    aligned a b s ea eb p q sa sb fits =
        ap₂ lcs_len (sym (parts_of s ea a sa)) (sym (parts_of s eb b sb) ∙ rw (p, q) refl)
        ∙ lcs_len-prefix (take s a) (slice s ea a ++ drop ea a) (slice s eb b ++ drop ea a)
        ∙ omega (arith, length-take s a, lcs_len-suffix (drop ea a) (slice s ea a) (slice s eb b))

-- When the two texts have at most 2000 lines each, or more generally a product of at most
-- `max_cells` lines, their diff is minimal: no list of lines that is left of both texts when lines
-- are crossed out is longer than the list of lines which the diff keeps.
pub diff_lines-minimal :
    (before after : Text) (zs : List Text)
    → length (split newline before) * length (split newline after) ≤ max_cells
    → Sub zs (split newline before)
    → Sub zs (split newline after)
    → length zs ≤ kept (diff_lines before after)
unfolding diff_lines
diff_lines-minimal before after zs small p q =
    rw (kept-diff_lists (split newline before) (split newline after) small)
      (lcs_len-max zs (split newline before) (split newline after) p q)
