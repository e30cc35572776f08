-- ===== src/Diff.antt =====
-- The line diff of the playground's file edits: dgx-portal-frontend/lib/diff.ts.
pub mod Table
pub mod Sides
pub mod Reconstruct
pub mod Minimal
pub mod Numbers
pub mod Hunks
pub mod Stats
mod Tests
use dgx_spark_llm_platform.Base.{
  ℕ, zero, suc, ◌+◌, ◌-◌, ◌*◌, ◌%◌, ◌^◌, max, min, Bool, true, false, ◌&&◌, ◌||◌, List, [], ◌∷◌,
  ◌++◌, Option, none, some, length, get_or, take, drop, replicate, slice, ltb, leb, if◌then◌else◌,
}
use dgx_spark_llm_platform.Base.Text.{Text, text_eq, split, newline}

pub data Kind : Type 0 where
  same add del : Kind

pub record DiffLine : Type 0 where
  pub kind : Kind
  pub text : Text
  pub old_no : Option ℕ
  pub new_no : Option ℕ

abbrev pub max_cells : ℕ
max_cells = 4_000_000

abbrev pub same_line : Text → ℕ → ℕ → DiffLine
same_line t o n = record { kind = same; text = t; old_no = some o; new_no = some n }

abbrev pub del_line : Text → ℕ → DiffLine
del_line t o = record { kind = del; text = t; old_no = some o; new_no = none }

abbrev pub add_line : Text → ℕ → DiffLine
add_line t n = record { kind = add; text = t; old_no = none; new_no = some n }

-- `while (start < a.length && start < b.length && a[start] === b[start]) start++`
unfoldable pub common_start : List Text → List Text → ℕ
common_start [] b = 0
common_start (x ∷ a) [] = 0
common_start (x ∷ a) (y ∷ b) = let n = common_start a b in if text_eq x y then n + 1 else 0

-- The loop that moves `endA` and `endB` back over equal lines, down to `start`.
unfoldable pub trim_end : List Text → List Text → ℕ → ℕ → ℕ → ℕ × ℕ
trim_end a b start zero end_b = (zero, end_b)
trim_end a b start (suc end_a) zero = (suc end_a, zero)
trim_end a b start (suc end_a) (suc end_b) =
    let rest = trim_end a b start end_a end_b in
    if ltb start (suc end_a)
      && ltb start (suc end_b)
      && text_eq (get_or a end_a []) (get_or b end_b [])
    then rest
    else (suc end_a, suc end_b)

-- The first loop that fills `out`: `n` lines from index `i` on.
unfoldable pub head_lines : List Text → ℕ → ℕ → List DiffLine
head_lines a i zero = []
head_lines a i (suc n) = same_line (get_or a i []) (i + 1) (i + 1) ∷ head_lines a (i + 1) n

-- `ma.forEach(… kind: "del" …)`, with `start + i` for `at`.
unfoldable pub del_all : List Text → ℕ → List DiffLine
del_all [] at = []
del_all (x ∷ ma) at = del_line x (at + 1) ∷ del_all ma (at + 1)

unfoldable pub add_all : List Text → ℕ → List DiffLine
add_all [] at = []
add_all (y ∷ mb) at = add_line y (at + 1) ∷ add_all mb (at + 1)

-- A value stored in a `Uint32Array`.
abbrev pub u32 : ℕ → ℕ
u32 n = n % 2 ^ 32

-- Row `i` of the table, from line `ma[i]` and row `i + 1`. The last cell is the array's initial 0.
unfoldable pub fill_row : Text → List Text → List ℕ → List ℕ
fill_row x [] below = 0 ∷ []
fill_row x (y ∷ mb) below =
    let row = fill_row x mb (drop 1 below) in
    u32 (if text_eq x y then get_or below 1 0 + 1 else max (get_or below 0 0) (get_or row 0 0))
    ∷ row

-- The rows of the table, from index 0 on.
unfoldable pub fill_table : List Text → List Text → List (List ℕ)
fill_table [] mb = replicate (length mb + 1) 0 ∷ []
fill_table (x ∷ ma) mb = let rest = fill_table ma mb in fill_row x mb (get_or rest 0 []) ∷ rest

-- `lcs[i][j]`
abbrev pub cell : List (List ℕ) → ℕ → ℕ → ℕ
cell table i j = get_or (get_or table i []) j 0

-- The loop over the middle: the lists are `ma` from `i` on and `mb` from `j` on.
unfoldable pub walk : List (List ℕ) → ℕ → List Text → List Text → ℕ → ℕ → List DiffLine
walk table start [] [] i j = []
walk table start [] (y ∷ mb) i j = add_line y (start + j + 1) ∷ walk table start [] mb i (j + 1)
walk table start (x ∷ ma) [] i j = del_line x (start + i + 1) ∷ walk table start ma [] (i + 1) j
walk table start (x ∷ ma) (y ∷ mb) i j = elim (text_eq x y) [
  | true ↦ same_line x (start + i + 1) (start + j + 1) ∷ walk table start ma mb (i + 1) (j + 1)
  | false ↦ elim (leb (cell table (i + 1) j) (cell table i (j + 1))) [
    | true ↦ add_line y (start + j + 1) ∷ walk table start (x ∷ ma) mb i (j + 1)
    | false ↦ del_line x (start + i + 1) ∷ walk table start ma (y ∷ mb) (i + 1) j
  ]
]

-- Both branches of the size test.
unfoldable pub middle : List Text → List Text → ℕ → List DiffLine
middle ma mb start =
    if ltb max_cells (length ma * length mb)
    then del_all ma start ++ add_all mb start
    else walk (fill_table ma mb) start ma mb 0 0

-- The last loop: `a` from index `k` on; `k - endA + endB + 1` is written with the subtraction last
-- but one, since `endA ≤ k`.
unfoldable pub tail_lines : List Text → ℕ → ℕ → ℕ → List DiffLine
tail_lines [] k end_a end_b = []
tail_lines (x ∷ a) k end_a end_b =
    same_line x (k + 1) (k - end_a + end_b + 1) ∷ tail_lines a (k + 1) end_a end_b

unfoldable pub diff_lists : List Text → List Text → List DiffLine
diff_lists a b =
    let start = common_start a b in
    let (end_a, end_b) = trim_end a b start (length a) (length b) in
    head_lines a 0 start
    ++ (middle (slice start end_a a) (slice start end_b b) start
        ++ tail_lines (drop end_a a) end_a end_a end_b)

unfoldable pub diff_lines : Text → Text → List DiffLine
diff_lines before after = diff_lists (split newline before) (split newline after)

-- `diffStats`; the loop's two counters are the result.
unfoldable pub diff_stats : List DiffLine → ℕ × ℕ
diff_stats [] = (0, 0)
diff_stats (l ∷ ls) =
    let rest = diff_stats ls in
    elim l.kind [ same ↦ rest | add ↦ (rest.0 + 1, rest.1) | del ↦ (rest.0, rest.1 + 1) ]

-- `l.kind !== "same"`
abbrev is_change : DiffLine → Bool
is_change l = elim l.kind [ same ↦ false | _ ↦ true ]

-- The loop that sets `keep`: for each changed line `i`, `keep[k] = true` for every `k` from
-- `max(0, i - context)` to `min(length - 1, i + context)`.
unfoldable pub mark : ℕ → ℕ → List Bool → ℕ → List Bool
mark lo hi [] k = []
mark lo hi (b ∷ keep) k = (b || (leb lo k && leb k hi)) ∷ mark lo hi keep (k + 1)

unfoldable pub keep_flags : ℕ → List DiffLine → ℕ → List Bool → List Bool
keep_flags context [] i keep = keep
keep_flags context (l ∷ ls) i keep =
    keep_flags context ls (i + 1) (
      if is_change l then mark (i - context) (min (length keep - 1) (i + context)) keep 0 else keep)

-- The last loop; the flag is `skipped`, and `none` is `null`.
unfoldable pub elide : List DiffLine → List Bool → Bool → List (Option DiffLine)
elide [] keep skipped = []
elide (l ∷ ls) [] skipped = []
elide (l ∷ ls) (true ∷ keep) skipped = some l ∷ elide ls keep false
elide (l ∷ ls) (false ∷ keep) true = elide ls keep true
elide (l ∷ ls) (false ∷ keep) false = none ∷ elide ls keep true

unfoldable pub hunks : List DiffLine → ℕ → List (Option DiffLine)
unfolding keep_flags mark elide
hunks lines context =
    elide lines (keep_flags context lines 0 (replicate (length lines) false)) false
