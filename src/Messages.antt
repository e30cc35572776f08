-- ===== src/Messages.antt =====
-- The messages of the playground: dgx-portal-frontend/lib/playground-messages.ts, with the types
-- of dgx-portal-frontend/lib/types.ts. The counters that only the page displays are left out of a
-- message.
mod Tests
pub mod Images
pub mod Looping
pub mod Live
pub mod Follow
pub mod Saved
use dgx_spark_llm_platform.Base.{
  ℕ, zero, suc, ◌+◌, ◌-◌, max, Bool, true, false, not, ◌&&◌, ◌||◌, List, [], ◌∷◌, ◌++◌, map, Option,
  none, some, length, drop, ltb, leb, ◌==◌, if◌then◌else◌,
}
use dgx_spark_llm_platform.Base.Text.{Text, text_eq, split, trim, newline}

pub data Role : Type 0 where
  user : Role
  assistant : Role

pub record EditedFile : Type 0 where
  pub name : Text
  pub content : Text

pub record ChatMsg : Type 0 where
  pub role : Role
  pub content : Text
  pub reasoning : Option Text
  pub is_error : Option Bool
  pub images : Option (List Text)
  pub hidden : Option Bool
  pub truncated : Option Bool
  pub pending : Option Bool
  pub file_edits : Option (List EditedFile)

-- `IMAGES_SAVE_BUDGET`
abbrev pub images_save_budget : ℕ
images_save_budget = 1500000

-- `PENDING_MAX_POLLS`
abbrev pub pending_max_polls : ℕ
pending_max_polls = 300

-- `.filter(Boolean)` on texts
unfoldable pub non_empty : List Text → List Text
non_empty [] = []
non_empty ([] ∷ ls) = non_empty ls
non_empty ((c ∷ l) ∷ ls) = (c ∷ l) ∷ non_empty ls

-- `.slice(-n)`
abbrev pub last_of {ℓ} : {A : Type ℓ} → ℕ → List A → List A
last_of n xs = drop (length xs - n) xs

-- The lines that `isLooping` looks at.
unfoldable pub tail_lines : Text → List Text
tail_lines text = last_of 20 (non_empty (map trim (split newline text)))

-- `counts.set(l, (counts.get(l) ?? 0) + 1)`
unfoldable pub bump : Text → List (Text × ℕ) → List (Text × ℕ)
bump l [] = (l, 1) ∷ []
bump l ((m, n) ∷ counts) =
    let rest = bump l counts in if text_eq m l then (m, n + 1) ∷ counts else (m, n) ∷ rest

unfoldable pub count_lines : List Text → List (Text × ℕ) → List (Text × ℕ)
count_lines [] counts = counts
count_lines (l ∷ ls) counts = count_lines ls (bump l counts)

-- `Math.max(...counts.values())`, of counts that are not empty.
unfoldable pub max_count : List (Text × ℕ) → ℕ
max_count [] = 0
max_count ((m, n) ∷ counts) = max n (max_count counts)

unfoldable pub is_looping : Text → Bool
is_looping text =
    let lines = tail_lines text in
    if ltb (length lines) 20 then false else leb 8 (max_count (count_lines lines []))

-- A message that may carry images: the bound of the type parameter of `recentImages`.
pub record HasImages (M : Type 0) : Type 0 where
  pub images_of : M → Option (List Text)
  pub with_images : M → Option (List Text) → M

-- A bound, with none for `Infinity`.
abbrev pub Limit : Type 0
Limit = Option ℕ

unfoldable pub is_used_up : Limit → Bool
is_used_up none = false
is_used_up (some n) = n == 0

unfoldable pub one_less : Limit → Limit
one_less none = none
one_less (some n) = some (n - 1)

-- `n > budget`
unfoldable pub is_over : ℕ → Limit → Bool
is_over n none = false
is_over n (some budget) = ltb budget n

-- The variables of the loops: what is kept of the current message, `remaining` and `weight`.
pub record Keep : Type 0 where
  pub kept : List Text
  pub remaining : Limit
  pub weight : ℕ

-- The inner loop, from the last image to the first. Once `remaining` is 0 no image passes, which is
-- the loop's condition, and its `break` sets it to 0.
unfoldable pub keep_images : Limit → Limit → ℕ → List Text → Keep
keep_images budget remaining weight [] = record {
  kept = [];
  remaining = remaining;
  weight = weight;
}
keep_images budget remaining weight (image ∷ images) =
    let k = keep_images budget remaining weight images in
    if is_used_up k.remaining
    then k
    else if is_over (k.weight + length image) budget
    then record { kept = k.kept; remaining = some 0; weight = k.weight }
    else record {
      kept = image ∷ k.kept;
      remaining = one_less k.remaining;
      weight = k.weight + length image;
    }

-- `guard.length ? guard : undefined`
unfoldable pub or_undefined : List Text → Option (List Text)
or_undefined [] = none
or_undefined (image ∷ images) = some (image ∷ images)

module _ {M : Type 0} (has_images : HasImages M) where
  -- One message of the outer loop, with its images: the message and the variables behind it.
  unfoldable pub keep_round : Limit → Limit → ℕ → M → Option (List Text) → M × Limit × ℕ
  unfolding keep_images or_undefined is_used_up is_over one_less
  keep_round budget remaining weight m none = (m, remaining, weight)
  keep_round budget remaining weight m (some []) = (m, remaining, weight)
  keep_round budget remaining weight m (some (image ∷ images)) =
      let k = keep_images budget remaining weight (image ∷ images) in
      (has_images.with_images m (or_undefined k.kept), k.remaining, k.weight)

  -- The outer loop, from the last message to the first.
  unfoldable pub keep_recent : Limit → Limit → List M → List M × Limit × ℕ
  unfolding keep_round
  keep_recent budget most [] = ([], most, 0)
  keep_recent budget most (m ∷ msgs) =
      let (out, remaining, weight) = keep_recent budget most msgs in
      let (m', remaining', weight') =
        keep_round budget remaining weight m (has_images.images_of m) in
      (m' ∷ out, remaining', weight')

  unfoldable pub recent_images : List M → Limit → Limit → List M
  recent_images msgs most budget = (keep_recent budget most msgs).0

-- `fromSaved`: a part of the saved message is set where it is truthy.
abbrev pub flag_of : Option Bool → Option Bool
flag_of (some true) = some true
flag_of _ = none

abbrev pub text_of : Option Text → Option Text
text_of (some (c ∷ s)) = some (c ∷ s)
text_of _ = none

abbrev pub list_of {ℓ} : {A : Type ℓ} → Option (List A) → Option (List A)
list_of (some (x ∷ xs)) = some (x ∷ xs)
list_of _ = none

unfoldable pub from_saved : ChatMsg → ChatMsg
from_saved m = record {
  role = m.role;
  content = m.content;
  reasoning = text_of m.reasoning;
  is_error = flag_of m.is_error;
  images = list_of m.images;
  hidden = m.hidden;
  truncated = flag_of m.truncated;
  pending = flag_of m.pending;
  file_edits = list_of m.file_edits;
}

-- What the titles and summaries read of a message.
pub record PlainMsg : Type 0 where
  pub role : Role
  pub content : Text
  pub hidden : Option Bool

unfoldable pub without_images : List ChatMsg → List PlainMsg
without_images [] = []
without_images (m ∷ msgs) =
    record { role = m.role; content = m.content; hidden = m.hidden } ∷ without_images msgs

abbrev pub chat_images : HasImages ChatMsg
chat_images = record {
  images_of = λ m. m.images;
  with_images = λ m images. record m { images = images };
}

-- The parts of a message that `forSave` copies: all but `fileEdits`.
abbrev pub saved_part : ChatMsg → ChatMsg
saved_part m = record m { file_edits = none }

unfoldable pub for_save : List ChatMsg → List ChatMsg
unfolding recent_images keep_recent keep_round keep_images or_undefined is_used_up is_over one_less
for_save msgs = recent_images chat_images (map saved_part msgs) none (some images_save_budget)
