-- ===== src/Diff/Hunks.antt =====
-- Which lines `hunks` shows.
use dgx_spark_llm_platform.Base.{
  ℕ, zero, suc, ◌+◌, ◌-◌, ◌<◌, min, Bool, true, false, ◌&&◌, ◌||◌, List, [], ◌∷◌, Option, none,
  some, ◌≡◌, refl, ap, ◌∙◌, arith, length, get_or, replicate, leb, if◌then◌else◌, length-replicate,
}
use dgx_spark_llm_platform.Diff.{DiffLine, is_change, mark, keep_flags, elide, hunks}

-- Line `k` is at most `context` lines away from a changed line of `ls`, whose first line is line `i`.
abbrev pub near : ℕ → List DiffLine → ℕ → ℕ → Bool
near context [] i k = false
near context (l ∷ ls) i k =
    let rest = near context ls (i + 1) k in
    (is_change l && (leb i (k + context) && leb k (i + context))) || rest

-- The lines of `ls` whose index passes the test; the first has index `k`.
abbrev pub chosen : (ℕ → Bool) → List DiffLine → ℕ → List DiffLine
chosen p [] k = []
chosen p (l ∷ ls) k = let rest = chosen p ls (k + 1) in if p k then l ∷ rest else rest

-- The lines among the entries.
abbrev pub visible : List (Option DiffLine) → List DiffLine
visible [] = []
visible (none ∷ es) = visible es
visible (some l ∷ es) = l ∷ visible es

-- No two marks of an elided stretch stand side by side. The flag says that one stands before.
abbrev pub Separated : Bool → List (Option DiffLine) → Type 0
Separated after [] = Unit
Separated after (some l ∷ es) = Separated false es
Separated after (none ∷ es) = (after ≡ false) × Separated true es

length-mark : (lo hi : ℕ) (keep : List Bool) (k : ℕ) → length (mark lo hi keep k) ≡ length keep
unfolding mark
length-mark lo hi [] k = refl
length-mark lo hi (b ∷ keep) k = ap suc (length-mark lo hi keep (k + 1))

get_or-mark :
    (lo hi : ℕ) (keep : List Bool) (k j : ℕ)
    → j < length keep
    → get_or (mark lo hi keep k) j false
      ≡ (get_or keep j false || (leb lo (k + j) && leb (k + j) hi))
unfolding mark
get_or-mark lo hi [] k j h = absurd (omega arith)
get_or-mark lo hi (b ∷ keep) k zero h = ground arith
get_or-mark lo hi (b ∷ keep) k (suc j) h =
    let e : k + 1 + j ≡ k + suc j = omega arith in
    rw (← e) (get_or-mark lo hi keep (k + 1) j (omega arith))

length-keep_flags :
    (context : ℕ) (ls : List DiffLine) (i : ℕ) (keep : List Bool)
    → length (keep_flags context ls i keep) ≡ length keep
unfolding keep_flags
length-keep_flags context [] i keep = refl
length-keep_flags context (l ∷ ls) i keep =
    let m = mark (i - context) (min (length keep - 1) (i + context)) keep 0 in
    length-keep_flags context ls (i + 1) (if is_change l then m else keep)
    ∙ marked (is_change l) m
        (length-mark (i - context) (min (length keep - 1) (i + context)) keep 0)
  where
    marked :
        (b : Bool) (m : List Bool)
        → length m ≡ length keep
        → length (if b then m else keep) ≡ length keep
    marked true m e = e
    marked false m e = refl

get_or-keep_flags :
    (context : ℕ) (ls : List DiffLine) (i : ℕ) (keep : List Bool) (k : ℕ)
    → k < length keep
    → get_or (keep_flags context ls i keep) k false ≡ (get_or keep k false || near context ls i k)
unfolding keep_flags
get_or-keep_flags context [] i keep k h = ground arith
get_or-keep_flags context (l ∷ ls) i keep k h =
    let lo = i - context in
    let hi = min (length keep - 1) (i + context) in
    let m = mark lo hi keep 0 in
    let lm = length-mark lo hi keep 0 in
    ground (
      arith,
      lm,
      get_or-mark lo hi keep 0 k h,
      get_or-keep_flags context ls (i + 1) keep k h,
      get_or-keep_flags context ls (i + 1) m k (omega (arith, lm)),
    )

get_or-replicate-false : (n k : ℕ) → get_or (replicate n false) k false ≡ false
get_or-replicate-false zero k = refl
get_or-replicate-false (suc n) zero = refl
get_or-replicate-false (suc n) (suc k) = get_or-replicate-false n k

visible-elide :
    (p : ℕ → Bool) (ls : List DiffLine) (keep : List Bool) (skipped : Bool) (k : ℕ)
    → length keep ≡ length ls
    → ((j : ℕ) → j < length ls → get_or keep j false ≡ p (k + j))
    → visible (elide ls keep skipped) ≡ chosen p ls k
unfolding elide
visible-elide p [] keep skipped k e h = refl
visible-elide p (l ∷ ls) [] skipped k e h = absurd (omega arith)
visible-elide p (l ∷ ls) (b ∷ keep) skipped k e h =
    let here : b ≡ p k = h 0 (omega arith) ∙ ap p {x = k + 0} (omega arith) in
    let there = λ (j : ℕ) (q : j < length ls).
      h (suc j) (omega arith) ∙ ap p {x = k + suc j} {y = k + 1 + j} (omega arith) in
    by_flag b skipped here (λ s. visible-elide p ls keep s (k + 1) (omega arith) there)
  where
    by_flag :
        (b skipped : Bool)
        → b ≡ p k
        → ((s : Bool) → visible (elide ls keep s) ≡ chosen p ls (k + 1))
        → visible (elide (l ∷ ls) (b ∷ keep) skipped) ≡ chosen p (l ∷ ls) k
    by_flag true s e ih = rw (← e) (ap (◌∷◌ l) (ih false))
    by_flag false true e ih = rw (← e) (ih true)
    by_flag false false e ih = rw (← e) (ih true)

elide-Separated :
    (ls : List DiffLine) (keep : List Bool) (skipped : Bool)
    → Separated skipped (elide ls keep skipped)
unfolding elide
elide-Separated [] keep skipped = tt
elide-Separated (l ∷ ls) [] skipped = tt
elide-Separated (l ∷ ls) (true ∷ keep) skipped = elide-Separated ls keep false
elide-Separated (l ∷ ls) (false ∷ keep) true = elide-Separated ls keep true
elide-Separated (l ∷ ls) (false ∷ keep) false = (refl, elide-Separated ls keep true)

-- For any list of diff lines and any context, the lines that `hunks` shows are exactly those at
-- most `context` lines away from a changed line, in order, and no two elision marks are adjacent.
pub hunks_lem :
    (lines : List DiffLine) (context : ℕ)
    → (visible (hunks lines context) ≡ chosen (near context lines 0) lines 0)
      × Separated false (hunks lines context)
unfolding hunks
hunks_lem lines context =
    let none_yet = replicate (length lines) false in
    let fits = length-replicate (length lines) false in
    let keep = keep_flags context lines 0 none_yet in
    let flags = λ (j : ℕ) (q : j < length lines).
      get_or-keep_flags context lines 0 none_yet j (rw fits q)
      ∙ rw (get_or-replicate-false (length lines) j)
          (ap (near context lines 0) {x = j} (omega arith)) in
    (
      visible-elide (near context lines 0) lines keep false 0
          (length-keep_flags context lines 0 none_yet ∙ fits) flags,
      elide-Separated lines keep false,
    )
