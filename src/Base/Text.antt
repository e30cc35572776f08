-- ===== src/Base/Text.antt =====
-- Text as JavaScript has it: a list of UTF-16 code units. `length` and `slice` of a text are then
-- those of JavaScript.
use Prim.Native.Char.{code}
use Prim.Native.String.{String}
use Prim.Native.Nat.{ℕ}
use mathlib.Core.Path.{◌≡◌, refl}
use mathlib.Core.Logic.{◌↔◌, ◌≢◌}
use mathlib.Core.Bool.{Bool, true, false, ◌&&◌, ◌||◌}
use mathlib.Core.List.{List, [], ◌∷◌, ◌++◌, append_assoc, cons-ne-nil}
use native.Mathlib.Omega.{arith}
use dgx_spark_llm_platform.Base.Tests.{◌==◌, if◌then◌else◌, leb}

abbrev pub Text : Type 0
Text = List ℕ

-- The code units of a literal whose characters are in the basic plane.
abbrev pub codes : String → Text
codes String.[] = []
codes (String.◌∷◌ c s) = code c ∷ codes s

-- `a === b`
unfoldable pub text_eq : Text → Text → Bool
text_eq [] [] = true
text_eq [] (_ ∷ _) = false
text_eq (_ ∷ _) [] = false
text_eq (x ∷ xs) (y ∷ ys) = x == y && text_eq xs ys

pub text_eq_sound : (a b : Text) → text_eq a b ≡ true → a ≡ b
unfolding text_eq
text_eq_sound [] [] h = refl
text_eq_sound [] (y ∷ ys) h = cc
text_eq_sound (x ∷ xs) [] h = cc
text_eq_sound (x ∷ xs) (y ∷ ys) h = ground (arith, text_eq_sound xs ys)

pub text_eq_refl : (a : Text) → text_eq a a ≡ true
unfolding text_eq
text_eq_refl [] = refl
text_eq_refl (x ∷ xs) = ground (arith, text_eq_refl xs)

pub text_eq_comm : (a b : Text) → text_eq a b ≡ text_eq b a
unfolding text_eq
text_eq_comm [] [] = refl
text_eq_comm [] (y ∷ b) = refl
text_eq_comm (x ∷ a) [] = refl
text_eq_comm (x ∷ a) (y ∷ b) = ground (arith, text_eq_comm a b)

pub text_eq_iff : (a b : Text) → (text_eq a b ≡ true) ↔ (a ≡ b)
text_eq_iff a b = (text_eq_sound a b, λ e. rw e (text_eq_refl b))

abbrev pub newline : ℕ
newline = b'\n'

abbrev push_head : ℕ → List Text → List Text
push_head c [] = (c ∷ []) ∷ []
push_head c (l ∷ ls) = (c ∷ l) ∷ ls

-- `s.split(sep)` at a separator of one code unit.
unfoldable pub split : ℕ → Text → List Text
split sep [] = [] ∷ []
split sep (c ∷ s) = let rest = split sep s in if c == sep then [] ∷ rest else push_head c rest

-- `lines.join(sep)` at a separator of one code unit.
unfoldable pub join : ℕ → List Text → Text
join sep [] = []
join sep (l ∷ []) = l
join sep (l ∷ m ∷ ls) = l ++ sep ∷ join sep (m ∷ ls)

pub split-ne-nil : (sep : ℕ) (s : Text) → split sep s ≢ []
unfolding split
split-ne-nil sep [] = cc
split-ne-nil sep (c ∷ s) = go (split sep s)
  where
    go : (ls : List Text) → (if c == sep then [] ∷ ls else push_head c ls) ≢ []
    go [] = ground arith
    go (l ∷ ls) = ground arith

join-push_head :
    (sep c : ℕ) (ls : List Text) → ls ≢ [] → join sep (push_head c ls) ≡ c ∷ join sep ls
unfolding join
join-push_head sep c [] h = absurd (h refl)
join-push_head sep c (l ∷ []) h = refl
join-push_head sep c (l ∷ m ∷ ls) h = refl

join_nil_head : (sep : ℕ) (ls : List Text) → ls ≢ [] → join sep ([] ∷ ls) ≡ sep ∷ join sep ls
unfolding join
join_nil_head sep [] h = absurd (h refl)
join_nil_head sep (l ∷ ls) h = refl

-- Joining the lines of a text gives the text back.
pub join-split : (sep : ℕ) (s : Text) → join sep (split sep s) ≡ s
unfolding split
join-split sep [] = unfold join in refl
join-split sep (c ∷ s) = ground (
  arith,
  join-split sep s,
  join-push_head sep c (split sep s) (split-ne-nil sep s),
  join_nil_head sep (split sep s) (split-ne-nil sep s),
)

-- What `\s` and `trim` take for white space.
unfoldable pub is_space : ℕ → Bool
is_space c =
    (leb 9 c && leb c 13)
    || (c == 0x20)
    || (c == 0xa0)
    || (c == 0x1680)
    || (leb 0x2000 c && leb c 0x200a)
    || (c == 0x2028)
    || (c == 0x2029)
    || (c == 0x202f)
    || (c == 0x205f)
    || (c == 0x3000)
    || (c == 0xfeff)

unfoldable pub trim_start : Text → Text
trim_start [] = []
trim_start (c ∷ s) = let rest = trim_start s in if is_space c then rest else c ∷ s

-- The text is white space only.
unfoldable pub is_blank : Text → Bool
is_blank [] = true
is_blank (c ∷ s) = is_space c && is_blank s

unfoldable pub trim_end : Text → Text
unfolding is_blank
trim_end [] = []
trim_end (c ∷ s) = let rest = trim_end s in if is_blank (c ∷ s) then [] else c ∷ rest

unfoldable pub trim : Text → Text
trim s = trim_end (trim_start s)

pub join-append :
    (sep : ℕ) (ls ms : List Text)
    → ls ≢ []
    → ms ≢ []
    → join sep (ls ++ ms) ≡ join sep ls ++ sep ∷ join sep ms
unfolding join
join-append sep [] ms h k = absurd (h refl)
join-append sep (l ∷ ls) [] h k = absurd (k refl)
join-append sep (l ∷ []) (m ∷ ms) h k = refl
join-append sep (l ∷ x ∷ ls) (m ∷ ms) h k =
    rw (join-append sep (x ∷ ls) (m ∷ ms) (cons-ne-nil x ls) k, append_assoc) refl

push_head-append :
    (c : ℕ) (ls ms : List Text) → ls ≢ [] → push_head c (ls ++ ms) ≡ push_head c ls ++ ms
push_head-append c [] ms h = absurd (h refl)
push_head-append c (l ∷ ls) ms h = refl

-- A separator ends one part and starts the next.
pub split-append : (sep : ℕ) (s t : Text) → split sep (s ++ sep ∷ t) ≡ split sep s ++ split sep t
unfolding split
split-append sep [] t = ground arith
split-append sep (c ∷ s) t = ground (
  arith,
  split-append sep s t,
  push_head-append c (split sep s) (split sep t) (split-ne-nil sep s),
)

-- `s.startsWith(p)`
unfoldable pub starts_with : Text → Text → Bool
starts_with [] s = true
starts_with (c ∷ p) [] = false
starts_with (c ∷ p) (d ∷ s) = (c == d) && starts_with p s

pub starts_with_sound : (p s : Text) → starts_with p s ≡ true → (rest : Text) × (s ≡ p ++ rest)
unfolding starts_with
starts_with_sound [] s h = (s, refl)
starts_with_sound (c ∷ p) [] h = cc
starts_with_sound (c ∷ p) (d ∷ s) h =
    let (rest, e) = starts_with_sound p s (ground arith) in (rest, ground arith)

pub starts_with-append : (p rest : Text) → starts_with p (p ++ rest) ≡ true
unfolding starts_with
starts_with-append [] rest = refl
starts_with-append (c ∷ p) rest = ground (arith, starts_with-append p rest)
