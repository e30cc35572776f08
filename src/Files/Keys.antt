-- ===== src/Files/Keys.antt =====
-- The keys of the map of files: an entry that is set is found, and no answer removes one.
use mathlib.Core.Path.{subst}
use dgx_spark_llm_platform.Base.{
  Bool, true, false, List, [], ◌∷◌, Option, none, some, if◌then◌else◌, ◌≡◌, ◌≢◌, refl, sym, ap, ◌∙◌,
  arith, Bool-cases, inl, inr,
}
use dgx_spark_llm_platform.Base.Text.{Text, text_eq, text_eq_sound, text_eq_refl, text_eq_comm}
use dgx_spark_llm_platform.Files.Names.{find_key}
use dgx_spark_llm_platform.Files.Maps.{FileEntry, Files, set}

module _ {ℓ} {A : Type ℓ} where
  if_again : (b : Bool) (x y z : A) → (if b then x else y) ≡ (if b then x else if b then z else y)
  if_again true x y z = refl
  if_again false x y z = refl

  if_swap :
      (a b : Bool) (x y z : A)
      → (a ≡ true → b ≢ true)
      → (if a then x else if b then y else z) ≡ (if b then y else if a then x else z)
  if_swap true true x y z h = absurd (h refl refl)
  if_swap true false x y z h = refl
  if_swap false b x y z h = refl

pub keys_apart : (j k n : Text) → text_eq j k ≡ false → text_eq j n ≡ true → text_eq k n ≢ true
keys_apart j k n e p q =
    let same = text_eq_sound j n p ∙ sym (text_eq_sound k n q) in
    ground (arith, e, subst (λ i. text_eq j i ≡ true) same (text_eq_refl j))

module _ {ℓ} {A : Type ℓ} where
  pub find_key-set :
      (n k : Text) (v : A) (m : List (Text × A))
      → find_key n (set k v m) ≡ (if text_eq k n then some v else find_key n m)
  unfolding find_key set
  find_key-set n k v [] = refl
  find_key-set n k v ((j, u) ∷ m) = elim (Bool-cases (text_eq j k)) [
    | inl e ↦
        rw e (rw (text_eq_sound j k e) (if_again (text_eq k n) (some v) (find_key n m) (some u)))
    | inr e ↦ rw e (
        rw (find_key-set n k v m) (
          if_swap (text_eq j n) (text_eq k n) (some u) (some v) (find_key n m)
            (keys_apart j k n e)))
  ]

  still_fresh :
      (j k : Text) (v : A) (m : List (Text × A))
      → text_eq k j ≡ false
      → find_key j m ≡ none
      → find_key j (set k v m) ≡ none
  still_fresh j k v m e fresh =
      find_key-set j k v m ∙ ap (λ b. if b then some v else find_key j m) e ∙ fresh

  -- No key twice.
  unfoldable pub IsMap : List (Text × A) → Type ℓ
  IsMap [] = Unit
  IsMap ((k, v) ∷ m) = (find_key k m ≡ none) × IsMap m

  pub set-IsMap : (k : Text) (v : A) (m : List (Text × A)) → IsMap m → IsMap (set k v m)
  unfolding IsMap set find_key
  set-IsMap k v [] h = (refl, tt)
  set-IsMap k v ((j, u) ∷ m) (fresh, h) = elim (Bool-cases (text_eq j k)) [
    | inl e ↦ rw e (fresh, h)
    | inr e ↦ rw e (still_fresh j k v m (text_eq_comm k j ∙ e) fresh, set-IsMap k v m h)
  ]

-- What a run of `files.set` makes of the map.
pub data Built : Files → Files → Type 0 where
  same : {m : Files} → Built m m
  put : {m n : Files} (k : Text) (f : FileEntry) → Built (set k f m) n → Built m n

pub Built_trans : {m n o : Files} → Built m n → Built n o → Built m o
Built_trans same h = h
Built_trans (put k f g) h = put k f (Built_trans g h)

pub Built-IsMap : {m n : Files} → Built m n → IsMap m → IsMap n
Built-IsMap same h = h
Built-IsMap (put {m} k f g) h = Built-IsMap g (set-IsMap k f m h)

if_none :
    (b : Bool) (f : FileEntry) (o : Option FileEntry) → (if b then some f else o) ≡ none → o ≡ none
if_none true f o h = ground arith
if_none false f o h = h

-- A file that is not there at the end was not there before.
pub Built-find_key :
    {m n : Files} → Built m n → (k : Text) → find_key k n ≡ none → find_key k m ≡ none
Built-find_key same k h = h
Built-find_key (put {m} j f g) k h =
    if_none (text_eq j k) f (find_key k m) (sym (find_key-set k j f m) ∙ Built-find_key g k h)
