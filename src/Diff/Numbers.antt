-- ===== src/Diff/Numbers.antt =====
-- The line numbers that a diff shows.
use dgx_spark_llm_platform.Base.{
  ℕ, zero, suc, ◌+◌, ◌-◌, ◌≤◌, List, [], ◌∷◌, ◌++◌, Option, none, some, ◌≡◌, refl, sym, ap, ◌∙◌,
  arith, length, take, drop, slice, length-take, length-drop, drop-length,
}
use dgx_spark_llm_platform.Base.Text.{Text, split, newline}
use dgx_spark_llm_platform.Diff.{
  Kind, same, add, del, DiffLine, fill_table, walk, middle, diff_lists, diff_lines, common_start,
  trim_end, head_lines, tail_lines, del_all, add_all,
}
use dgx_spark_llm_platform.Diff.Sides.{common_start_lem, trim_end-Trimmed}

-- Behind `o` lines of the old text and `n` of the new, each line has the next number on each side
-- that it belongs to and none on the other, and `end_o` and `end_n` lines are reached.
abbrev pub Numbered : ℕ → ℕ → ℕ → ℕ → List DiffLine → Type 0
Numbered o n end_o end_n [] = (o ≡ end_o) × (n ≡ end_n)
Numbered o n end_o end_n (l ∷ ls) = elim l.kind [
  | same ↦
      (l.old_no ≡ some (o + 1))
      × (l.new_no ≡ some (n + 1))
      × Numbered (o + 1) (n + 1) end_o end_n ls
  | del ↦ (l.old_no ≡ some (o + 1)) × (l.new_no ≡ none) × Numbered (o + 1) n end_o end_n ls
  | add ↦ (l.old_no ≡ none) × (l.new_no ≡ some (n + 1)) × Numbered o (n + 1) end_o end_n ls
]

Numbered-line :
    (l : DiffLine) (ls qs : List DiffLine) (o n end_o end_n last_o last_n : ℕ)
    → ((o n : ℕ) → Numbered o n end_o end_n ls → Numbered o n last_o last_n qs)
    → Numbered o n end_o end_n (l ∷ ls)
    → Numbered o n last_o last_n (l ∷ qs)
Numbered-line l ls qs o n end_o end_n last_o last_n f h = go l.kind l.old_no l.new_no h
  where
    go :
        (k : Kind) (old_no new_no : Option ℕ)
        → Numbered o n end_o end_n
            (record { kind = k; text = l.text; old_no = old_no; new_no = new_no } ∷ ls)
        → Numbered o n last_o last_n
            (record { kind = k; text = l.text; old_no = old_no; new_no = new_no } ∷ qs)
    go same old_no new_no (a, b, c) = (a, b, f (o + 1) (n + 1) c)
    go del old_no new_no (a, b, c) = (a, b, f (o + 1) n c)
    go add old_no new_no (a, b, c) = (a, b, f o (n + 1) c)

Numbered-append :
    (p q : List DiffLine) (mid_o mid_n end_o end_n : ℕ)
    → Numbered mid_o mid_n end_o end_n q
    → (o n : ℕ) → Numbered o n mid_o mid_n p
    → Numbered o n end_o end_n (p ++ q)
Numbered-append [] q mid_o mid_n end_o end_n k o n (e, e') = rw (e, e') k
Numbered-append (l ∷ p) q mid_o mid_n end_o end_n k o n h =
    Numbered-line l p (p ++ q) o n mid_o mid_n end_o end_n
      (Numbered-append p q mid_o mid_n end_o end_n k) h

head_lines-Numbered : (a : List Text) (i n e : ℕ) → i + n ≡ e → Numbered i i e e (head_lines a i n)
unfolding head_lines
head_lines-Numbered a i zero e h = (omega arith, omega arith)
head_lines-Numbered a i (suc n) e h = (refl, refl, head_lines-Numbered a (i + 1) n e (omega arith))

tail_lines-Numbered :
    (a : List Text) (k ea eb o n end_o end_n : ℕ)
    → ea ≤ k
    → o ≡ k
    → n ≡ k - ea + eb
    → o + length a ≡ end_o
    → n + length a ≡ end_n
    → Numbered o n end_o end_n (tail_lines a k ea eb)
unfolding tail_lines
tail_lines-Numbered [] k ea eb o n end_o end_n h p q r s = (omega arith, omega arith)
tail_lines-Numbered (x ∷ a) k ea eb o n end_o end_n h p q r s = (
  ap some (omega arith),
  ap some (omega arith),
  tail_lines-Numbered a (k + 1) ea eb (o + 1) (n + 1) end_o end_n (omega arith) (omega arith)
      (omega arith) (omega arith) (omega arith),
)

del_all-Numbered :
    (ma : List Text) (o n e : ℕ) → o + length ma ≡ e → Numbered o n e n (del_all ma o)
unfolding del_all
del_all-Numbered [] o n e h = (omega arith, refl)
del_all-Numbered (x ∷ ma) o n e h = (refl, refl, del_all-Numbered ma (o + 1) n e (omega arith))

add_all-Numbered :
    (mb : List Text) (o n e : ℕ) → n + length mb ≡ e → Numbered o n o e (add_all mb n)
unfolding add_all
add_all-Numbered [] o n e h = (refl, omega arith)
add_all-Numbered (y ∷ mb) o n e h = (refl, refl, add_all-Numbered mb o (n + 1) e (omega arith))

walk-Numbered :
    (table : List (List ℕ)) (start : ℕ) (ma mb : List Text) (i j o n end_o end_n : ℕ)
    → o ≡ start + i
    → n ≡ start + j
    → o + length ma ≡ end_o
    → n + length mb ≡ end_n
    → Numbered o n end_o end_n (walk table start ma mb i j)
unfolding walk
walk-Numbered table start [] [] i j o n eo en p q r s = (omega arith, omega arith)
walk-Numbered table start [] (y ∷ mb) i j o n eo en p q r s = (
  refl,
  ap some (omega arith),
  walk-Numbered table start [] mb i (j + 1) o (n + 1) eo en p (omega arith) r (omega arith),
)
walk-Numbered table start (x ∷ ma) [] i j o n eo en p q r s = (
  ap some (omega arith),
  refl,
  walk-Numbered table start ma [] (i + 1) j (o + 1) n eo en (omega arith) q (omega arith) s,
)
walk-Numbered table start (x ∷ ma) (y ∷ mb) i j o n eo en p q r s =
    let so : start + i + 1 ≡ o + 1 = omega arith in
    let sn : start + j + 1 ≡ n + 1 = omega arith in
    ground (
      arith,
      walk-Numbered table start ma mb (i + 1) (j + 1) (o + 1) (n + 1) eo en,
      walk-Numbered table start (x ∷ ma) mb i (j + 1) o (n + 1) eo en,
      walk-Numbered table start ma (y ∷ mb) (i + 1) j (o + 1) n eo en,
    )

middle-Numbered :
    (ma mb : List Text) (start end_o end_n : ℕ)
    → start + length ma ≡ end_o
    → start + length mb ≡ end_n
    → Numbered start start end_o end_n (middle ma mb start)
unfolding middle
middle-Numbered ma mb start eo en p q = ground (
  arith,
  Numbered-append (del_all ma start) (add_all mb start) eo start eo en
      (add_all-Numbered mb eo start en q) start start (del_all-Numbered ma start start eo p),
  walk-Numbered (fill_table ma mb) start ma mb 0 0 start start eo en,
)

diff_lists-Numbered : (a b : List Text) → Numbered 0 0 (length a) (length b) (diff_lists a b)
unfolding diff_lists
diff_lists-Numbered a b =
    let s = common_start a b in
    let (_, fits_a, fits_b) = common_start_lem a b in
    let ea = (trim_end a b s (length a) (length b)).0 in
    let eb = (trim_end a b s (length a) (length b)).1 in
    let (sa, sb, la, lb, same_end) =
      trim_end-Trimmed a b s (length a) (length b)
        (fits_a, fits_b, omega arith, omega arith, drop-length a ∙ sym (drop-length b)) in
    let ends : length a - ea ≡ length b - eb =
      sym (length-drop ea a) ∙ ap length same_end ∙ length-drop eb b in
    let slice_a : s + length (slice s ea a) ≡ ea =
      omega (arith, length-drop s (take ea a), length-take ea a) in
    let slice_b : s + length (slice s eb b) ≡ eb =
      omega (arith, length-drop s (take eb b), length-take eb b) in
    let rest =
      Numbered-append (middle (slice s ea a) (slice s eb b) s) (tail_lines (drop ea a) ea ea eb) ea
        eb (length a) (length b)
        (tail_lines-Numbered (drop ea a) ea ea eb ea eb (length a) (length b) (omega arith) refl
          (omega arith) (omega (arith, length-drop ea a)) (omega (arith, length-drop ea a)))
        s s (middle-Numbered (slice s ea a) (slice s eb b) s ea eb slice_a slice_b) in
    Numbered-append (head_lines a 0 s) _ s s (length a) (length b) rest 0 0
      (head_lines-Numbered a 0 s s (omega arith))

-- Every kept line of a diff carries its number in both texts, every removed line its number in the
-- old text only and every added line its number in the new text only, and the numbers run from 1
-- to the numbers of lines with no gap.
pub diff_lines-Numbered :
    (before after : Text)
    → Numbered 0 0
        (length (split newline before))
        (length (split newline after))
        (diff_lines before after)
unfolding diff_lines
diff_lines-Numbered before after = diff_lists-Numbered (split newline before) (split newline after)
