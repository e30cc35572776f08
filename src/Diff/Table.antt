-- ===== src/Diff/Table.antt =====
-- The table of the diff holds the lengths of the longest common subsequences, with no wrap-around.
use dgx_spark_llm_platform.Base.{
  ℕ, zero, suc, ◌+◌, ◌<◌, ◌≤◌, ◌^◌, max, List, [], ◌∷◌, ◌≡◌, refl, ◌∙◌, arith, true, false, length,
  get_or, drop, replicate, ◌⊎◌, inl, inr,
}
use dgx_spark_llm_platform.Base.Text.{Text, text_eq, text_eq_refl}
use dgx_spark_llm_platform.Diff.{fill_row, fill_table, cell}

-- The length of a longest common subsequence, by the textbook recursion.
unfoldable pub lcs_len : List Text → List Text → ℕ
lcs_len [] b = 0
lcs_len (x ∷ a) [] = 0
lcs_len (x ∷ a) (y ∷ b) = elim (text_eq x y) [
  | true ↦ lcs_len a b + 1
  | false ↦ max (lcs_len a (y ∷ b)) (lcs_len (x ∷ a) b)
]

-- `zs` is left of `xs` when some lines are crossed out.
abbrev pub Sub : List Text → List Text → Type 0
Sub [] xs = Unit
Sub (z ∷ zs) [] = ⊥
Sub (z ∷ zs) (x ∷ xs) = (z ≡ x) × Sub zs xs ⊎ Sub (z ∷ zs) xs

Sub-skip_head : (z : Text) (zs xs : List Text) → Sub (z ∷ zs) xs → Sub zs xs
Sub-skip_head z [] xs s = tt
Sub-skip_head z (w ∷ zs) [] s = absurd s
Sub-skip_head z (w ∷ zs) (x ∷ xs) (inl (e, s)) = inr s
Sub-skip_head z (w ∷ zs) (x ∷ xs) (inr s) = inr (Sub-skip_head z (w ∷ zs) xs s)

-- A subsequence of `x ∷ xs` without its head is one of `xs`.
Sub-tail :
    (z : Text) (zs : List Text) (x : Text) (xs : List Text) → Sub (z ∷ zs) (x ∷ xs) → Sub zs xs
Sub-tail z zs x xs (inl (e, s)) = s
Sub-tail z zs x xs (inr s) = Sub-skip_head z zs xs s

-- No common subsequence is longer.
pub lcs_len-max : (zs a b : List Text) → Sub zs a → Sub zs b → length zs ≤ lcs_len a b
unfolding lcs_len
lcs_len-max [] a b p q = omega arith
lcs_len-max (z ∷ zs) [] b p q = absurd p
lcs_len-max (z ∷ zs) (x ∷ a) [] p q = absurd q
lcs_len-max (z ∷ zs) (x ∷ a) (y ∷ b) p q = ground (
  arith,
  text_eq_refl x,
  lcs_len-max zs a b (Sub-tail z zs x a p) (Sub-tail z zs y b q),
  lcs_len-max (z ∷ zs) a (y ∷ b),
  lcs_len-max (z ∷ zs) (x ∷ a) b,
)

pub lcs_len_bounds : (a b : List Text) → (lcs_len a b ≤ length a) × (lcs_len a b ≤ length b)
unfolding lcs_len
lcs_len_bounds [] b = (omega arith, omega arith)
lcs_len_bounds (x ∷ a) [] = (omega arith, omega arith)
lcs_len_bounds (x ∷ a) (y ∷ b) =
    let (p, q) = lcs_len_bounds a b in
    let (p', q') = lcs_len_bounds a (y ∷ b) in
    let (p'', q'') = lcs_len_bounds (x ∷ a) b in ground arith

-- Past the end of a list, as at its end, there is nothing in common.
pub lcs_len-nil : (a : List Text) → lcs_len a [] ≡ 0
unfolding lcs_len
lcs_len-nil [] = refl
lcs_len-nil (x ∷ a) = refl

drop-nil {ℓ} : {A : Type ℓ} (n : ℕ) → drop {A = A} n [] ≡ []
drop-nil zero = refl
drop-nil (suc n) = refl

get_or-replicate : (n j : ℕ) → get_or {A = ℕ} (replicate n 0) j 0 ≡ 0
get_or-replicate zero j = refl
get_or-replicate (suc n) zero = refl
get_or-replicate (suc n) (suc j) = get_or-replicate n j

get_or-drop : (l : List ℕ) (j : ℕ) → get_or (drop 1 l) j 0 ≡ get_or l (suc j) 0
get_or-drop [] j = refl
get_or-drop (x ∷ l) j = refl

-- One row from the row below it.
fill_row_lem :
    (x : Text) (ma mb : List Text) (below : List ℕ)
    → length mb < 2 ^ 32
    → ((j : ℕ) → get_or below j 0 ≡ lcs_len ma (drop j mb))
    → (j : ℕ) → get_or (fill_row x mb below) j 0 ≡ lcs_len (x ∷ ma) (drop j mb)
unfolding fill_row lcs_len
fill_row_lem x ma [] below small h zero = refl
fill_row_lem x ma [] below small h (suc j) = refl
fill_row_lem x ma (y ∷ mb) below small h (suc j) =
    fill_row_lem x ma mb (drop 1 below) (omega arith) (λ k. get_or-drop below k ∙ h (suc k)) j
fill_row_lem x ma (y ∷ mb) below small h zero =
    let row =
      fill_row_lem x ma mb (drop 1 below) (omega arith) (λ k. get_or-drop below k ∙ h (suc k)) 0 in
    let (_, fits) = lcs_len_bounds (x ∷ ma) (y ∷ mb) in ground (arith, h 0, h 1)

-- The whole table.
pub fill_table_lem :
    (ma mb : List Text)
    → length mb < 2 ^ 32
    → (i j : ℕ) → cell (fill_table ma mb) i j ≡ lcs_len (drop i ma) (drop j mb)
unfolding fill_table
fill_table_lem [] mb small zero j = get_or-replicate (length mb + 1) j ∙ unfold lcs_len in refl
fill_table_lem [] mb small (suc i) j = unfold lcs_len in refl
fill_table_lem (x ∷ ma) mb small zero j =
    fill_row_lem x ma mb (get_or (fill_table ma mb) 0 []) small (fill_table_lem ma mb small 0) j
fill_table_lem (x ∷ ma) mb small (suc i) j = fill_table_lem ma mb small i j
