-- ===== src/Script/Pieces.antt =====
-- What `finalDepth` counts in a script made of code, strings and comments.
use dgx_spark_llm_platform.Base.{
  ℕ, false, ◌||◌, List, [], ◌∷◌, ◌++◌, append_assoc, Option, ◌==◌, if◌then◌else◌, ◌≡◌, ◌≢◌, ◌⊎◌,
  refl, sym, ap, ◌∙◌, arith, All, Bool-cases, inl, inr,
}
use mathlib.Core.Path.{subst}
use mathlib.Core.List.{cons-ne-nil}
use dgx_spark_llm_platform.Base.Text.{Text, is_space, newline}
use dgx_spark_llm_platform.Base.Int.{ℤ, inc, dec}
use dgx_spark_llm_platform.Script.{
  Mode, code, State, significant, close, opens, closes, step_code, step, run, first, enter,
}

-- A piece of a script.
pub data Piece : Type 0 where
  plain : Text → Piece
  quote : ℕ → Text → Piece
  line : Text → Piece
  comment : Text → Piece

abbrev pub print : Piece → Text
print (plain s) = s
print (quote q body) = q ∷ (body ++ q ∷ [])
print (line body) = b'/' ∷ b'/' ∷ (body ++ newline ∷ [])
print (comment body) = b'/' ∷ b'*' ∷ (body ++ b'*' ∷ b'/' ∷ [])

abbrev pub print_all : List Piece → Text
print_all [] = []
print_all (p ∷ ps) = print p ++ print_all ps

-- Code that opens no string, comment, template or regular expression.
abbrev pub IsCode : ℕ → Type 0
IsCode c = (c ≢ b'/') × (c ≢ b'\'') × (c ≢ b'"') × (c ≢ b'`')

abbrev pub IsPiece : Piece → Type 0
IsPiece (plain s) = All IsCode s
IsPiece (quote q body) = ((q ≡ b'\'') ⊎ (q ≡ b'"')) × All (λ c. (c ≢ q) × (c ≢ b'\\')) body
IsPiece (line body) = All (λ c. c ≢ newline) body
IsPiece (comment body) = All (λ c. c ≢ b'*') body

-- The depth behind a character of the code, and behind a piece.
abbrev pub shift : ℕ → ℤ → ℤ
shift c d = if opens c then inc d else if closes c then dec d else d

abbrev pub shift_all : Text → ℤ → ℤ
shift_all [] d = d
shift_all (c ∷ s) d = shift_all s (shift c d)

abbrev pub depth_behind : List Piece → ℤ → ℤ
depth_behind [] d = d
depth_behind (plain s ∷ ps) d = depth_behind ps (shift_all s d)
depth_behind (_ ∷ ps) d = depth_behind ps d

-- A state in a mode, outside every template.
abbrev pub InMode : Mode → ℤ → State → Type 0
InMode m d st = (st.mode ≡ m) × (st.templates ≡ []) × (st.depth ≡ d)

-- The text is passed: the run goes on behind it, in that mode and at that depth.
abbrev pub Passes : Mode → ℤ → Text → Text → State → Type 0
Passes m d s rest st = (st' : State) × (run (s ++ rest) st ≡ run rest st') × InMode m d st'

significant-InCode :
    (c : ℕ) (d : ℤ) (st : State) → InMode code d st → InMode code d (significant c st)
unfolding significant
significant-InCode c d st h = elim (Bool-cases (is_space c)) [ inl e ↦ rw e h | inr e ↦ rw e h ]

close-InCode :
    (c : ℕ) (d : ℤ) (templates : List ℤ) (st : State)
    → templates ≡ []
    → InMode code d st
    → InMode code (dec d) (close c templates st)
unfolding close
close-InCode c d [] st h (m, n, e) = significant-InCode c (dec d) _ (m, n, ap dec e)
close-InCode c d (t ∷ templates) st h k = absurd (cons-ne-nil t templates h)

step_code-InCode :
    (c : ℕ) (next : Option ℕ) (d : ℤ) (st : State)
    → IsCode c
    → InMode code d st
    → InMode code (shift c d) (step_code c next st)
unfolding step_code
step_code-InCode c next d st (a, q, r, t) (m, n, e) =
    let slash : (c == b'/') ≡ false = ground arith in
    let quotes : ((c == b'\'') || (c == b'"')) ≡ false = ground arith in
    let tick : (c == b'`') ≡ false = ground arith in
    rw (slash, quotes, tick)
      (elim (Bool-cases (opens c)) [
        | inl o ↦ rw o (significant-InCode c (inc d) _ (m, n, ap inc e))
        | inr o ↦ elim (Bool-cases (closes c)) [
          | inl k ↦ rw (o, k) (close-InCode c d st.templates st n (m, n, e))
          | inr k ↦ rw (o, k) (significant-InCode c d st (m, n, e))
        ]
      ])

-- One character is passed.
pub pass :
    (from : Mode) (within : Mode) (d : ℤ) (c : ℕ) (s : Text) (st : State)
    → st.mode ≡ from
    → InMode within d (step from c (first s) st)
    → Passes within d (c ∷ []) s st
unfolding run
pass from within d c s st e h = (
  step st.mode c (first s) st,
  refl,
  subst (λ m. InMode within d (step m c (first s) st)) (sym e) h,
)

pub join_passes :
    (within : Mode) (d : ℤ) (after : Mode) (d' : ℤ) (s t rest : Text) (st : State)
    → Passes within d s (t ++ rest) st
    → ((st' : State) → InMode within d st' → Passes after d' t rest st')
    → Passes after d' (s ++ t) rest st
join_passes within d after d' s t rest st (st', e, h) next =
    let (st2, e', h') = next st' h in (st2, ap (λ u. run u st) (append_assoc s t rest) ∙ e ∙ e', h')

pub plain-Passes :
    (s rest : Text) (d : ℤ) (st : State)
    → All IsCode s
    → InMode code d st
    → Passes code (shift_all s d) s rest st
plain-Passes [] rest d st h k = (st, refl, k)
plain-Passes (c ∷ s) rest d st (h, hs) (m, n, e) =
    join_passes code (shift c d) code (shift_all s (shift c d)) (c ∷ []) s rest st
      (pass code code (shift c d) c (s ++ rest) st m
        (unfold step in step_code-InCode c (first (s ++ rest)) d st h (m, n, e)))
      (λ st' k'. plain-Passes s rest (shift c d) st' hs k')

-- A stretch that keeps the mode.
pub stretch-Passes :
    (within : Mode) (P : ℕ → Type 0)
    → ((c : ℕ) (next : Option ℕ) (st : State) → P c → step within c next st ≡ enter within c st)
    → (s rest : Text) (d : ℤ) (st : State) → All P s
    → InMode within d st
    → Passes within d s rest st
stretch-Passes within P stays [] rest d st h k = (st, refl, k)
stretch-Passes within P stays (c ∷ s) rest d st (h, hs) (m, n, e) =
    join_passes within d within d (c ∷ []) s rest st
      (pass within within d c (s ++ rest) st m
        (subst (InMode within d) (sym (stays c (first (s ++ rest)) st h)) (refl, n, e)))
      (λ st' k'. stretch-Passes within P stays s rest d st' hs k')
