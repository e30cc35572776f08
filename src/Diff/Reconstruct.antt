-- ===== src/Diff/Reconstruct.antt =====
-- A diff shows both texts, whole: the sides of `diff_lines`.
use dgx_spark_llm_platform.Base.{
  ℕ, ◌≤◌, List, [], ◌∷◌, ◌++◌, ◌≡◌, refl, sym, ap, ◌∙◌, arith, append_assoc, length, take, drop,
  slice, drop-length, take-append-drop, suc, zero,
}
use dgx_spark_llm_platform.Base.Text.{Text, split, join, newline, join-split}
use dgx_spark_llm_platform.Diff.{diff_lists, diff_lines, common_start, trim_end}
use dgx_spark_llm_platform.Diff.Sides.{
  old_side, new_side, old_side-append, new_side-append, middle-sides, tail_lines-sides,
  head_lines-sides, common_start_lem, trim_end-Trimmed,
}

take-slice {ℓ} :
    {A : Type ℓ} (s e : ℕ) (xs : List A) → s ≤ e → take s xs ++ slice s e xs ≡ take e xs
take-slice zero e xs h = refl
take-slice (suc s) zero xs h = absurd (omega arith)
take-slice (suc s) (suc e) [] h = refl
take-slice (suc s) (suc e) (x ∷ xs) h = ap (◌∷◌ x) (take-slice s e xs (omega arith))

pub parts_of {ℓ} :
    {A : Type ℓ} (s e : ℕ) (xs : List A) → s ≤ e → take s xs ++ (slice s e xs ++ drop e xs) ≡ xs
parts_of s e xs h =
    sym (append_assoc (take s xs) (slice s e xs) (drop e xs))
    ∙ ap (λ l. l ++ drop e xs) (take-slice s e xs h)
    ∙ take-append-drop e xs

pub diff_lists-sides :
    (a b : List Text) → (old_side (diff_lists a b) ≡ a) × (new_side (diff_lists a b) ≡ b)
unfolding diff_lists
diff_lists-sides a b =
    let s = common_start a b in
    let (same_start, fits_a, fits_b) = common_start_lem a b in
    let ea = (trim_end a b s (length a) (length b)).0 in
    let eb = (trim_end a b s (length a) (length b)).1 in
    let (sa, sb, la, lb, same_end) =
      trim_end-Trimmed a b s (length a) (length b)
        (fits_a, fits_b, omega arith, omega arith, drop-length a ∙ sym (drop-length b)) in
    let (ho, hn) = head_lines-sides a 0 s (omega arith) in
    let (mo, mn) = middle-sides (slice s ea a) (slice s eb b) s in
    let (to, tn) = tail_lines-sides (drop ea a) ea ea eb in
    let pa = parts_of s ea a sa in
    let pb = parts_of s eb b sb in
    (
      rw (old_side-append, ho, old_side-append, mo, to) pa,
      rw (new_side-append, hn, new_side-append, mn, tn) (rw (same_start, same_end) pb),
    )

pub diff_lines-lists :
    (before after : Text)
    → (old_side (diff_lines before after) ≡ split newline before)
      × (new_side (diff_lines before after) ≡ split newline after)
unfolding diff_lines
diff_lines-lists before after = diff_lists-sides (split newline before) (split newline after)

-- Whatever the two texts, the lines of their diff that are kept or removed are the lines of the
-- old text, in order, and those that are kept or added are the lines of the new text.
pub diff_lines-sides :
    (before after : Text)
    → (join newline (old_side (diff_lines before after)) ≡ before)
      × (join newline (new_side (diff_lines before after)) ≡ after)
diff_lines-sides before after =
    let (o, n) = diff_lines-lists before after in
    (
      ap (join newline) o ∙ join-split newline before,
      ap (join newline) n ∙ join-split newline after,
    )
