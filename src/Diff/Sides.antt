-- ===== src/Diff/Sides.antt =====
-- What the two sides of a diff are: lemmas on the pieces that `diff_lists` joins.
use dgx_spark_llm_platform.Base.{
  ℕ, zero, suc, ◌+◌, ◌≤◌, List, [], ◌∷◌, ◌++◌, ◌≡◌, refl, ap, arith, append-nil, length, get_or,
  take, drop, drop-eq-cons,
}
use dgx_spark_llm_platform.Base.Text.{Text, text_eq_sound}
use dgx_spark_llm_platform.Diff.{
  same, add, del, DiffLine, common_start, trim_end, walk, head_lines, tail_lines, del_all, add_all,
  middle, fill_table,
}

-- The lines that the old file has.
abbrev pub old_side : List DiffLine → List Text
old_side [] = []
old_side (l ∷ ls) =
    let rest = old_side ls in
    elim l.kind [ same ↦ l.text ∷ rest | del ↦ l.text ∷ rest | add ↦ rest ]

-- The lines that the new file has.
abbrev pub new_side : List DiffLine → List Text
new_side [] = []
new_side (l ∷ ls) =
    let rest = new_side ls in
    elim l.kind [ same ↦ l.text ∷ rest | add ↦ l.text ∷ rest | del ↦ rest ]

pub old_side-append : (p q : List DiffLine) → old_side (p ++ q) ≡ old_side p ++ old_side q
old_side-append [] q = refl
old_side-append (l ∷ p) q = ground (arith, old_side-append p q)

pub new_side-append : (p q : List DiffLine) → new_side (p ++ q) ≡ new_side p ++ new_side q
new_side-append [] q = refl
new_side-append (l ∷ p) q = ground (arith, new_side-append p q)

old_side-walk :
    (table : List (List ℕ)) (start : ℕ) (ma mb : List Text) (i j : ℕ)
    → old_side (walk table start ma mb i j) ≡ ma
unfolding walk
old_side-walk table start [] [] i j = refl
old_side-walk table start [] (y ∷ mb) i j = old_side-walk table start [] mb i (j + 1)
old_side-walk table start (x ∷ ma) [] i j = ap (◌∷◌ x) (old_side-walk table start ma [] (i + 1) j)
old_side-walk table start (x ∷ ma) (y ∷ mb) i j = ground (
  arith,
  old_side-walk table start ma mb (i + 1) (j + 1),
  old_side-walk table start (x ∷ ma) mb i (j + 1),
  old_side-walk table start ma (y ∷ mb) (i + 1) j,
)

new_side-walk :
    (table : List (List ℕ)) (start : ℕ) (ma mb : List Text) (i j : ℕ)
    → new_side (walk table start ma mb i j) ≡ mb
unfolding walk
new_side-walk table start [] [] i j = refl
new_side-walk table start [] (y ∷ mb) i j = ap (◌∷◌ y) (new_side-walk table start [] mb i (j + 1))
new_side-walk table start (x ∷ ma) [] i j = new_side-walk table start ma [] (i + 1) j
new_side-walk table start (x ∷ ma) (y ∷ mb) i j = ground (
  arith,
  text_eq_sound x y,
  new_side-walk table start ma mb (i + 1) (j + 1),
  new_side-walk table start (x ∷ ma) mb i (j + 1),
  new_side-walk table start ma (y ∷ mb) (i + 1) j,
)

del_all-sides :
    (ma : List Text) (at : ℕ) → (old_side (del_all ma at) ≡ ma) × (new_side (del_all ma at) ≡ [])
unfolding del_all
del_all-sides [] at = (refl, refl)
del_all-sides (x ∷ ma) at =
    (ap (◌∷◌ x) ((del_all-sides ma (at + 1)).0), (del_all-sides ma (at + 1)).1)

add_all-sides :
    (mb : List Text) (at : ℕ) → (old_side (add_all mb at) ≡ []) × (new_side (add_all mb at) ≡ mb)
unfolding add_all
add_all-sides [] at = (refl, refl)
add_all-sides (y ∷ mb) at =
    ((add_all-sides mb (at + 1)).0, ap (◌∷◌ y) ((add_all-sides mb (at + 1)).1))

pub middle-sides :
    (ma mb : List Text) (start : ℕ)
    → (old_side (middle ma mb start) ≡ ma) × (new_side (middle ma mb start) ≡ mb)
unfolding middle
middle-sides ma mb start =
    let (od, nd) = del_all-sides ma start in
    let (oa, na) = add_all-sides mb start in
    ground (
      arith,
      old_side-append (del_all ma start) (add_all mb start),
      new_side-append (del_all ma start) (add_all mb start),
      append-nil ma,
      old_side-walk (fill_table ma mb) start ma mb 0 0,
      new_side-walk (fill_table ma mb) start ma mb 0 0,
    )

pub tail_lines-sides :
    (a : List Text) (k end_a end_b : ℕ)
    → (old_side (tail_lines a k end_a end_b) ≡ a) × (new_side (tail_lines a k end_a end_b) ≡ a)
unfolding tail_lines
tail_lines-sides [] k end_a end_b = (refl, refl)
tail_lines-sides (x ∷ a) k end_a end_b =
    let (o, n) = tail_lines-sides a (k + 1) end_a end_b in (ap (◌∷◌ x) o, ap (◌∷◌ x) n)

-- `n` lines of `a` from `i` on.
pub head_lines-sides :
    (a : List Text) (i n : ℕ)
    → i + n ≤ length a
    → (old_side (head_lines a i n) ≡ take n (drop i a))
      × (new_side (head_lines a i n) ≡ take n (drop i a))
unfolding head_lines
head_lines-sides a i zero h = (refl, refl)
head_lines-sides a i (suc n) h =
    let at = drop-eq-cons i a [] (omega arith) in
    let next : drop (suc i) a ≡ drop (i + 1) a = ap (λ k. drop k a) {x = suc i} (omega arith) in
    let (o, m) = head_lines-sides a (i + 1) n (omega arith) in
    (rw (at, o, next) refl, rw (at, m, next) refl)

-- The common start is common, and no longer than either text.
pub common_start_lem :
    (a b : List Text)
    → (take (common_start a b) a ≡ take (common_start a b) b)
      × (common_start a b ≤ length a)
      × (common_start a b ≤ length b)
unfolding common_start
common_start_lem [] b = (refl, omega arith, omega arith)
common_start_lem (x ∷ a) [] = (refl, omega arith, omega arith)
common_start_lem (x ∷ a) (y ∷ b) =
    let (p, q, r) = common_start_lem a b in grind (arith, text_eq_sound x y)

-- What the backward loop keeps true: the ends stay above `start`, and the texts agree behind them.
abbrev Trimmed : List Text → List Text → ℕ → ℕ × ℕ → Type 0
Trimmed a b start (ea, eb) =
    (start ≤ ea) × (start ≤ eb) × (ea ≤ length a) × (eb ≤ length b) × (drop ea a ≡ drop eb b)

pub trim_end-Trimmed :
    (a b : List Text) (start ea eb : ℕ)
    → Trimmed a b start (ea, eb)
    → Trimmed a b start (trim_end a b start ea eb)
unfolding trim_end
trim_end-Trimmed a b start zero eb h = h
trim_end-Trimmed a b start (suc ea) zero h = h
trim_end-Trimmed a b start (suc ea) (suc eb) h = ground (
  arith,
  text_eq_sound (get_or a ea []) (get_or b eb []),
  drop-eq-cons ea a [],
  drop-eq-cons eb b [],
  trim_end-Trimmed a b start ea eb,
)
