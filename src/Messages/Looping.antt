-- ===== src/Messages/Looping.antt =====
-- `isLooping` against its description: one line that fills 8 of the last 20 non-empty lines.
use dgx_spark_llm_platform.Base.{
  ℕ, ◌+◌, ◌-◌, ◌≤◌, true, List, [], ◌∷◌, map, length, length-drop, Bool-cases, if◌then◌else◌, ◌≡◌,
  refl, ◌↔◌, inl, inr, arith, leb,
}
use dgx_spark_llm_platform.Base.Text.{
  Text, text_eq, text_eq_sound, text_eq_refl, split, trim, newline,
}
use dgx_spark_llm_platform.Messages.{
  non_empty, tail_lines, bump, count_lines, max_count, is_looping, last_of,
}

-- How many of the lines are `l`.
abbrev pub count : Text → List Text → ℕ
count l [] = 0
count l (m ∷ ls) = let rest = count l ls in if text_eq m l then rest + 1 else rest

-- The count of a line in the map: of its first entry, and of all its entries.
abbrev first_count : Text → List (Text × ℕ) → ℕ
first_count l [] = 0
first_count l ((m, n) ∷ counts) = let rest = first_count l counts in if text_eq m l then n else rest

abbrev sum_count : Text → List (Text × ℕ) → ℕ
sum_count l [] = 0
sum_count l ((m, n) ∷ counts) =
    let rest = sum_count l counts in if text_eq m l then n + rest else rest

text_eq_other : (a b c : Text) → text_eq a b ≡ true → text_eq b c ≡ text_eq a c
text_eq_other a b c h = rw (text_eq_sound a b h) refl

first_count-bump :
    (l m : Text) (counts : List (Text × ℕ))
    → first_count l (bump m counts)
      ≡ (if text_eq m l then first_count l counts + 1 else first_count l counts)
unfolding bump
first_count-bump l m [] = ground arith
first_count-bump l m ((k, n) ∷ counts) = elim (Bool-cases (text_eq k m)) [
  | inl e ↦ ground (arith, text_eq_other k m l e)
  | inr e ↦ elim (Bool-cases (text_eq k l)) [
    | inl f ↦ elim (Bool-cases (text_eq m l)) [
      | inl g ↦ absurd (ground (arith, text_eq_sound k l f, text_eq_sound m l g, text_eq_refl l))
      | inr g ↦ ground (arith, first_count-bump l m counts)
    ]
    | inr f ↦ ground (arith, first_count-bump l m counts)
  ]
]

sum_count-bump :
    (l m : Text) (counts : List (Text × ℕ))
    → sum_count l (bump m counts)
      ≡ (if text_eq m l then sum_count l counts + 1 else sum_count l counts)
unfolding bump
sum_count-bump l m [] = ground arith
sum_count-bump l m ((k, n) ∷ counts) = elim (Bool-cases (text_eq k m)) [
  | inl e ↦ ground (arith, text_eq_other k m l e)
  | inr e ↦ ground (arith, sum_count-bump l m counts)
]

first_count-count_lines :
    (l : Text) (ls : List Text) (counts : List (Text × ℕ))
    → first_count l (count_lines ls counts) ≡ first_count l counts + count l ls
unfolding count_lines
first_count-count_lines l [] counts = omega arith
first_count-count_lines l (m ∷ ls) counts =
    ground (arith, first_count-count_lines l ls (bump m counts), first_count-bump l m counts)

sum_count-count_lines :
    (l : Text) (ls : List Text) (counts : List (Text × ℕ))
    → sum_count l (count_lines ls counts) ≡ sum_count l counts + count l ls
unfolding count_lines
sum_count-count_lines l [] counts = omega arith
sum_count-count_lines l (m ∷ ls) counts =
    ground (arith, sum_count-count_lines l ls (bump m counts), sum_count-bump l m counts)

first_count-le-max_count :
    (l : Text) (counts : List (Text × ℕ)) → first_count l counts ≤ max_count counts
unfolding max_count
first_count-le-max_count l [] = omega arith
first_count-le-max_count l ((m, n) ∷ counts) = ground (arith, first_count-le-max_count l counts)

-- Some line has the largest count.
max_count-le-sum_count :
    (counts : List (Text × ℕ)) → (l : Text) × (max_count counts ≤ sum_count l counts)
unfolding max_count
max_count-le-sum_count [] = ([], omega arith)
max_count-le-sum_count ((m, n) ∷ counts) =
    let (l, h) = max_count-le-sum_count counts in
    elim (Bool-cases (leb n (max_count counts))) [
      | inl e ↦ (l, ground arith)
      | inr e ↦ (m, ground (arith, text_eq_refl m))
    ]

-- An answer is taken for a loop exactly when it has at least 20 non-empty lines, and one line fills
-- at least 8 of the last 20 of them.
pub is_looping_iff :
    (text : Text)
    → (is_looping text ≡ true)
      ↔ (20 ≤ length (non_empty (map trim (split newline text))))
        × ((l : Text) × (8 ≤ count l (tail_lines text)))
unfolding is_looping tail_lines
is_looping_iff text =
    let lines = non_empty (map trim (split newline text)) in
    let tail = last_of 20 lines in
    let size = length-drop (length lines - 20) lines in
    let (most, h) = max_count-le-sum_count (count_lines tail []) in
    (
      λ loops. (ground arith, (most, ground (arith, sum_count-count_lines most tail []))),
      λ (enough, (l, k)). ground (
        arith,
        first_count-count_lines l tail [],
        first_count-le-max_count l (count_lines tail []),
      ),
    )
