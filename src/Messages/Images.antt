-- ===== src/Messages/Images.antt =====
-- The images that `recentImages` keeps.
use dgx_spark_llm_platform.Base.{
  ℕ, suc, ◌+◌, ◌-◌, ◌≤◌, Bool, true, false, List, [], ◌∷◌, ◌++◌, Option, none, some, length,
  Bool-cases, if◌then◌else◌, ◌≡◌, refl, sym, ap, ◌∙◌, ◌⊎◌, inl, inr, arith,
}
use mathlib.Core.Path.{ap₂}
use dgx_spark_llm_platform.Base.Text.{Text}
use dgx_spark_llm_platform.Messages.{
  HasImages, Limit, is_used_up, one_less, is_over, Keep, keep_images, or_undefined, keep_round,
  keep_recent, recent_images,
}

abbrev pub total : List Text → ℕ
total [] = 0
total (image ∷ images) = total images + length image

abbrev pub Within : ℕ → Limit → Type 0
Within n none = Unit
Within n (some bound) = n ≤ bound

abbrev minus : Limit → ℕ → Limit
minus none n = none
minus (some bound) n = some (bound - n)

-- Why the images before `kept` are dropped: there are none, or the last one of them does not fit.
abbrev pub IsMaximal : Limit → Limit → List Text → List Text → Type 0
IsMaximal most budget dropped kept =
    (dropped ≡ [])
    ⊎ ((d : List Text) × (x : Text) × (dropped ≡ d ++ x ∷ [])
        × ((most ≡ some (length kept)) ⊎ (is_over (total kept + length x) budget ≡ true)))

-- The latest images that fit, and as many as fit.
abbrev pub IsLatest : Limit → Limit → List Text → List Text → Type 0
IsLatest most budget images kept =
    (dropped : List Text) × (images ≡ dropped ++ kept)
    × Within (length kept) most
    × Within (total kept) budget
    × IsMaximal most budget dropped kept

abbrev Stopped : Limit → Limit → List Text → Keep → Type 0
Stopped most budget dropped k =
    (is_used_up k.remaining ≡ true)
    × ((d : List Text) × (x : Text) × (dropped ≡ d ++ x ∷ [])
        × ((most ≡ some (length k.kept)) ⊎ (is_over (total k.kept + length x) budget ≡ true)))

abbrev Kept : Limit → Limit → List Text → Keep → Type 0
Kept most budget images k =
    (dropped : List Text) × (images ≡ dropped ++ k.kept)
    × (k.weight ≡ total k.kept)
    × Within (length k.kept) most
    × Within (total k.kept) budget
    × (((dropped ≡ []) × (k.remaining ≡ minus most (length k.kept)))
        ⊎ Stopped most budget dropped k)

full : (most : Limit) (n : ℕ) → Within n most → is_used_up (minus most n) ≡ true → most ≡ some n
unfolding is_used_up
full none n h k = cc
full (some bound) n h k = ap some (ground arith)

Within-more : (most : Limit) (n : ℕ) → is_used_up (minus most n) ≡ false → Within (suc n) most
unfolding is_used_up
Within-more none n k = tt
Within-more (some bound) n k = ground arith

one_less-minus : (most : Limit) (n : ℕ) → one_less (minus most n) ≡ minus most (suc n)
unfolding one_less
one_less-minus none n = refl
one_less-minus (some bound) n = ap some (omega arith)

Within-budget : (budget : Limit) (n : ℕ) → is_over n budget ≡ false → Within n budget
unfolding is_over
Within-budget none n h = tt
Within-budget (some bound) n h = ground arith

keep_step :
    (budget most : Limit) (image : Text) (images : List Text) (k : Keep)
    → Kept most budget images k
    → Kept most budget (image ∷ images) (
        if is_used_up k.remaining
        then k
        else if is_over (k.weight + length image) budget
        then record { kept = k.kept; remaining = some 0; weight = k.weight }
        else record {
          kept = image ∷ k.kept;
          remaining = one_less k.remaining;
          weight = k.weight + length image;
        })
keep_step budget most image images k
      (dropped, whole, weigh, few, light, inr (stop, (d, x, e, why))) =
    rw stop (
      (image ∷ dropped),
      ap (◌∷◌ image) whole,
      weigh,
      few,
      light,
      inr (stop, ((image ∷ d), x, ap (◌∷◌ image) e, why)),
    )
keep_step budget most image images k (dropped, whole, weigh, few, light, inl (nil, left)) =
    elim (Bool-cases (is_used_up k.remaining)) [
      | inl used ↦ rw used (
        (image ∷ dropped),
        ap (◌∷◌ image) whole,
        weigh,
        few,
        light,
        inr (
          used,
          ([], image, ap (◌∷◌ image) nil, inl (full most (length k.kept) few (rw (← left) used))),
        ),
      )
      | inr more ↦ elim (Bool-cases (is_over (k.weight + length image) budget)) [
        | inl over ↦
            rw (more, over)
              (
                (image ∷ dropped),
                ap (◌∷◌ image) whole,
                weigh,
                few,
                light,
                inr (
                  unfold is_used_up in refl,
                  ([], image, ap (◌∷◌ image) nil, inr (rw (← weigh) over)),
                ),
              )
        | inr fits ↦
            rw (more, fits)
              (
                [],
                ap (◌∷◌ image) (whole ∙ ap (λ d. d ++ k.kept) nil),
                ap (λ n. n + length image) weigh,
                Within-more most (length k.kept) (rw (← left) more),
                Within-budget budget (total k.kept + length image) (rw (← weigh) fits),
                inl (refl, ap one_less left ∙ one_less-minus most (length k.kept)),
              )
      ]
    ]

keep_images-Kept :
    (budget most : Limit) (images : List Text)
    → Kept most budget images (keep_images budget most 0 images)
unfolding keep_images
keep_images-Kept budget most [] =
    ([], refl, refl, nothing most, nothing budget, inl (refl, sym (minus_zero most)))
  where
    nothing : (b : Limit) → Within 0 b
    nothing none = tt
    nothing (some n) = omega arith

    minus_zero : (b : Limit) → minus b 0 ≡ b
    minus_zero none = refl
    minus_zero (some n) = ap some (omega arith)
keep_images-Kept budget most (image ∷ images) =
    keep_step budget most image images _ (keep_images-Kept budget most images)

-- The images of a later stretch put behind those that an earlier one leaves.
abbrev behind : List Text → Keep → Keep
behind images k = record { kept = k.kept ++ images; remaining = k.remaining; weight = k.weight }

behind_step :
    (used over : Bool) (l : Keep) (image : Text) (images : List Text) (left : Limit) (n : ℕ)
    → (if used
        then behind images l
        else if over
        then record { kept = l.kept ++ images; remaining = some 0; weight = l.weight }
        else record { kept = image ∷ (l.kept ++ images); remaining = left; weight = n })
      ≡ behind images (
          if used
          then l
          else if over
          then record { kept = l.kept; remaining = some 0; weight = l.weight }
          else record { kept = image ∷ l.kept; remaining = left; weight = n })
behind_step true over l image images left n = refl
behind_step false true l image images left n = refl
behind_step false false l image images left n = refl

keep_images-append :
    (budget remaining : Limit) (weight : ℕ) (xs ys : List Text)
    → let k = keep_images budget remaining weight ys in
      keep_images budget remaining weight (xs ++ ys)
      ≡ behind k.kept (keep_images budget k.remaining k.weight xs)
unfolding keep_images
keep_images-append budget remaining weight [] ys = refl
keep_images-append budget remaining weight (x ∷ xs) ys =
    let k = keep_images budget remaining weight ys in
    let l = keep_images budget k.remaining k.weight xs in
    rw (keep_images-append budget remaining weight xs ys) (
      behind_step (is_used_up l.remaining) (is_over (l.weight + length x) budget) l x k.kept
        (one_less l.remaining) (l.weight + length x))

abbrev pub own : Option (List Text) → List Text
own none = []
own (some images) = images

own-or_undefined : (images : List Text) → own (or_undefined images) ≡ images
unfolding or_undefined
own-or_undefined [] = refl
own-or_undefined (image ∷ images) = refl

module _ {M : Type 0} (has_images : HasImages M) where
  -- All images of the messages, in order.
  abbrev pub all_images : List M → List Text
  all_images [] = []
  all_images (m ∷ msgs) = own (has_images.images_of m) ++ all_images msgs

module _ {M : Type 0} (has_images : HasImages M)
    (images_with : (m : M) (images : Option (List Text))
      → has_images.images_of (has_images.with_images m images) ≡ images) where
  -- One round keeps, of the message's images, those that the inner loop keeps.
  keep_round_lem :
      (budget remaining : Limit) (weight : ℕ) (m : M) (images : Option (List Text))
      → has_images.images_of m ≡ images
      → let (m', remaining', weight') = keep_round has_images budget remaining weight m images in
        let k = keep_images budget remaining weight (own images) in
        (own (has_images.images_of m') ≡ k.kept) × (remaining' ≡ k.remaining) × (weight' ≡ k.weight)
  unfolding keep_round
  keep_round_lem budget remaining weight m none e = unfold keep_images in (ap own e, refl, refl)
  keep_round_lem budget remaining weight m (some []) e =
      unfold keep_images in (ap own e, refl, refl)
  keep_round_lem budget remaining weight m (some (image ∷ images)) e =
      (ap own (images_with m _) ∙ own-or_undefined _, refl, refl)

  keep_recent_lem :
      (budget most : Limit) (msgs : List M)
      → let (out, remaining, weight) = keep_recent has_images budget most msgs in
        let k = keep_images budget most 0 (all_images has_images msgs) in
        (all_images has_images out ≡ k.kept) × (remaining ≡ k.remaining) × (weight ≡ k.weight)
  unfolding keep_recent
  keep_recent_lem budget most [] = unfold keep_images in (refl, refl, refl)
  keep_recent_lem budget most (m ∷ msgs) =
      let (out, remaining, weight) = keep_recent has_images budget most msgs in
      let (p, q, r) = keep_recent_lem budget most msgs in
      let (p', q', r') = keep_round_lem budget remaining weight m (has_images.images_of m) refl in
      rw
        (keep_images-append budget most 0 (own (has_images.images_of m))
          (all_images has_images msgs))
        (rw (← q, ← r) (ap₂ ◌++◌ p' p, q', r'))

  -- The images that the messages carry behind `recentImages` are the latest ones that fit the two
  -- bounds, in order, and as many as fit: they end the list of all images, and where one is dropped,
  -- the last one that is dropped would exceed a bound.
  pub recent_images-IsLatest :
      (msgs : List M) (most budget : Limit)
      → IsLatest most budget
          (all_images has_images msgs)
          (all_images has_images (recent_images has_images msgs most budget))
  unfolding recent_images
  recent_images-IsLatest msgs most budget =
      let (p, q, r) = keep_recent_lem budget most msgs in
      rw p (latest (keep_images-Kept budget most (all_images has_images msgs)))
    where
      latest :
          {images : List Text} {k : Keep}
          → Kept most budget images k
          → IsLatest most budget images k.kept
      latest (dropped, whole, weigh, few, light, inl (nil, left)) =
          (dropped, whole, few, light, inl nil)
      latest (dropped, whole, weigh, few, light, inr (stop, why)) =
          (dropped, whole, few, light, inr why)
