-- ===== src/Decisions/Again.antt =====
-- A question that is accepted is accepted again in the form in which it is sent.
use dgx_spark_llm_platform.Base.{
  ◌≤◌, true, false, ◌||◌, Option, none, some, ltb, ◌≡◌, arith, Bool-cases, inl, inr,
}
use mathlib.Core.Path.{subst}
use dgx_spark_llm_platform.Base.Text.{Text, codes, text_eq, is_blank}
use dgx_spark_llm_platform.Decisions.{
  Question, Kind, noul, choice, score, Result, ok, refused, max_choices, max_levels, one_question,
  typed, kind_of, text_or_empty, instructed, of_kind, choices, levels,
}
use dgx_spark_llm_platform.Decisions.Value.{
  Json, Fields, null, truth, number, string, array, object, no_field, field, count_items,
  count_fields, get_field, all_texts,
}

abbrev pub kind_name : Kind → Text
kind_name noul = codes "noul"
kind_name choice = codes "choice"
kind_name score = codes "score"

abbrev criteria_field : Option Json → Fields
criteria_field none = no_field
criteria_field (some v) = field (codes "criteria") v no_field

-- The object that is sent for a question.
abbrev pub json_of : Question → Json
json_of q = object (
    field (codes "type") (string (kind_name q.kind))
      (field (codes "instructions") (string q.instructions) (criteria_field q.criteria)))

-- The criteria that a type takes.
abbrev pub Fits : Kind → Option Json → Type 0
Fits noul none = Unit
Fits choice (some (object fields)) = (2 ≤ count_fields fields) × (count_fields fields ≤ max_choices)
Fits score (some (array items)) =
    (2 ≤ count_items items) × (count_items items ≤ max_levels) × (all_texts items ≡ true)
Fits _ _ = ⊥

-- What the engine takes: instructions that are not blank, and criteria of the right shape and size.
abbrev pub IsQuestion : Question → Type 0
IsQuestion q = (is_blank q.instructions ≡ false) × Fits q.kind q.criteria

-- A statement about what is accepted.
abbrev pub Holds {ℓ κ} : {A : Type ℓ} → (A → Type κ) → Result A → Type κ
Holds P (ok a) = P a
Holds P (refused why) = Unit

choices-IsQuestion :
    (id s : Text) (criteria : Option Json)
    → is_blank s ≡ false
    → Holds IsQuestion (choices id s criteria)
unfolding choices
choices-IsQuestion id s none b = tt
choices-IsQuestion id s (some null) b = tt
choices-IsQuestion id s (some (truth v)) b = tt
choices-IsQuestion id s (some (number v)) b = tt
choices-IsQuestion id s (some (string v)) b = tt
choices-IsQuestion id s (some (array v)) b = tt
choices-IsQuestion id s (some (object fields)) b =
    elim (Bool-cases (ltb (count_fields fields) 2 || ltb max_choices (count_fields fields))) [
      | inl bad ↦ rw bad tt
      | inr good ↦ rw good (b, (ground arith, ground arith))
    ]

levels-IsQuestion :
    (id s : Text) (criteria : Option Json)
    → is_blank s ≡ false
    → Holds IsQuestion (levels id s criteria)
unfolding levels
levels-IsQuestion id s none b = tt
levels-IsQuestion id s (some null) b = tt
levels-IsQuestion id s (some (truth v)) b = tt
levels-IsQuestion id s (some (number v)) b = tt
levels-IsQuestion id s (some (string v)) b = tt
levels-IsQuestion id s (some (object v)) b = tt
levels-IsQuestion id s (some (array items)) b =
    elim (Bool-cases (ltb (count_items items) 2 || ltb max_levels (count_items items))) [
      | inl bad ↦ rw bad tt
      | inr good ↦ elim (Bool-cases (all_texts items)) [
        | inl texts ↦ rw (good, texts) (b, (ground arith, ground arith, texts))
        | inr other ↦ rw (good, other) tt
      ]
    ]

of_kind-IsQuestion :
    (id : Text) (kind : Kind) (s : Text) (criteria : Option Json)
    → is_blank s ≡ false
    → Holds IsQuestion (of_kind id kind s criteria)
unfolding of_kind
of_kind-IsQuestion id noul s criteria b = (b, tt)
of_kind-IsQuestion id choice s criteria b = choices-IsQuestion id s criteria b
of_kind-IsQuestion id score s criteria b = levels-IsQuestion id s criteria b

instructed-IsQuestion :
    (id : Text) (kind : Kind) (instructions criteria : Option Json)
    → Holds IsQuestion (instructed id kind instructions criteria)
unfolding instructed
instructed-IsQuestion id kind none criteria = tt
instructed-IsQuestion id kind (some null) criteria = tt
instructed-IsQuestion id kind (some (truth v)) criteria = tt
instructed-IsQuestion id kind (some (number v)) criteria = tt
instructed-IsQuestion id kind (some (array v)) criteria = tt
instructed-IsQuestion id kind (some (object v)) criteria = tt
instructed-IsQuestion id kind (some (string s)) criteria = elim (Bool-cases (is_blank s)) [
  | inl blank ↦ rw blank tt
  | inr b ↦ rw b (of_kind-IsQuestion id kind s criteria b)
]

typed-IsQuestion :
    (id type : Text) (kind : Option Kind) (fields : Fields)
    → Holds IsQuestion (typed id type kind fields)
unfolding typed
typed-IsQuestion id type none fields = tt
typed-IsQuestion id type (some kind) fields = instructed-IsQuestion id kind _ _

pub one_question-Holds : (id : Text) (raw : Json) → Holds IsQuestion (one_question id raw)
unfolding one_question
one_question-Holds id null = tt
one_question-Holds id (truth v) = tt
one_question-Holds id (number v) = tt
one_question-Holds id (string v) = tt
one_question-Holds id (array v) = tt
one_question-Holds id (object fields) = typed-IsQuestion id _ _ fields

again :
    (id : Text) (kind : Kind) (s : Text) (criteria : Option Json)
    → is_blank s ≡ false
    → Fits kind criteria
    → one_question id (json_of (record { kind = kind; instructions = s; criteria = criteria }))
      ≡ ok (record { kind = kind; instructions = s; criteria = criteria })
unfolding one_question typed instructed of_kind choices levels kind_of text_or_empty get_field
    text_eq
again id noul s none b h = ground arith
again id noul s (some v) b h = absurd h
again id choice s none b h = absurd h
again id choice s (some null) b h = absurd h
again id choice s (some (truth v)) b h = absurd h
again id choice s (some (number v)) b h = absurd h
again id choice s (some (string v)) b h = absurd h
again id choice s (some (array v)) b h = absurd h
again id choice s (some (object fields)) b (low, high) = ground arith
again id score s none b h = absurd h
again id score s (some null) b h = absurd h
again id score s (some (truth v)) b h = absurd h
again id score s (some (number v)) b h = absurd h
again id score s (some (string v)) b h = absurd h
again id score s (some (object v)) b h = absurd h
again id score s (some (array items)) b (low, high, texts) = ground arith

-- What the workbench accepts as a question, from any value, is well-formed: its instructions are not
-- blank, and its criteria are of the shape and the size that its type wants. And a well-formed
-- question is accepted, unchanged, in the form in which it is sent.
pub one_question-IsQuestion :
    (id : Text) (raw : Json) (q : Question)
    → (one_question id raw ≡ ok q → IsQuestion q)
      × (IsQuestion q → one_question id (json_of q) ≡ ok q)
one_question-IsQuestion id raw q = (
  λ h. subst (Holds IsQuestion) h (one_question-Holds id raw),
  λ (b, h). again id q.kind q.instructions q.criteria b h,
)
