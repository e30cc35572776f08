-- ===== src/Ask/Answerable.antt =====
-- The questions that `questionsOf` reads.
use dgx_spark_llm_platform.Base.{
  ℕ, zero, suc, ◌≤◌, true, List, [], ◌∷◌, Option, none, some, length, take, length-take, All, ◌≡◌,
  ◌≢◌, arith, Bool-cases, inl, inr,
}
use dgx_spark_llm_platform.Base.Text.{codes, Text, trim}
use dgx_spark_llm_platform.Decisions.Value.{
  Json, null, truth, number, string, array, object, Items, no_item, item,
}
use dgx_spark_llm_platform.Ask.Values.{
  AskQ, max_ask_options, questions_in, question_of, is_asked, is_filled, has_option, cons_option,
  options_of, options_in, member,
}

-- A question that can be answered: it is not empty, and it has one to eight options, none empty.
unfoldable pub IsAnswerable : AskQ → Type 0
IsAnswerable q =
    (q.question ≢ [])
    × (q.options ≢ [])
    × (length q.options ≤ max_ask_options)
    × All (λ o. o ≢ []) q.options

is_filled_lem : (s : Text) → is_filled s ≡ true → s ≢ []
unfolding is_filled
is_filled_lem [] h = ground arith
is_filled_lem (c ∷ s) h = ground arith

All-take : (n : ℕ) (os : List Text) → All (λ o. o ≢ []) os → All (λ o. o ≢ []) (take n os)
All-take zero os h = tt
All-take (suc n) [] h = tt
All-take (suc n) (o ∷ os) (p, h) = (p, All-take n os h)

options_of-filled : (items : Items) → All (λ o. o ≢ []) (options_of items)
unfolding options_of
options_of-filled no_item = tt
options_of-filled (item (string s) items) = elim (Bool-cases (is_filled (trim s))) [
  | inl e ↦ rw e (is_filled_lem (trim s) e, options_of-filled items)
  | inr e ↦ rw e (options_of-filled items)
]
options_of-filled (item null items) = options_of-filled items
options_of-filled (item (truth b) items) = options_of-filled items
options_of-filled (item (number n) items) = options_of-filled items
options_of-filled (item (array a) items) = options_of-filled items
options_of-filled (item (object o) items) = options_of-filled items

options_in_lem :
    (v : Option Json) → (length (options_in v) ≤ max_ask_options) × All (λ o. o ≢ []) (options_in v)
unfolding options_in
options_in_lem none = (omega arith, tt)
options_in_lem (some (array items)) = (
  omega (arith, length-take max_ask_options (options_of items)),
  All-take max_ask_options (options_of items) (options_of-filled items),
)
options_in_lem (some null) = (omega arith, tt)
options_in_lem (some (truth b)) = (omega arith, tt)
options_in_lem (some (number n)) = (omega arith, tt)
options_in_lem (some (string s)) = (omega arith, tt)
options_in_lem (some (object o)) = (omega arith, tt)

has_option_lem : (os : List Text) → has_option os ≡ true → os ≢ []
unfolding has_option
has_option_lem [] h = ground arith
has_option_lem (o ∷ os) h = ground arith

question_of-IsAnswerable :
    (q : Json) → is_asked (question_of q) ≡ true → IsAnswerable (question_of q)
unfolding is_asked IsAnswerable question_of
question_of-IsAnswerable q h =
    let (few, filled) = options_in_lem (member (codes "options") q) in
    (is_filled_lem _ (ground arith), has_option_lem _ (ground arith), few, filled)

-- What is there holds.
unfoldable pub IfSome {ℓ κ} : {A : Type ℓ} (P : A → Type κ) → Option A → Type κ
IfSome P none = Unit
IfSome P (some a) = P a

cons_option-IfSome :
    (q : Json) (rest : Option (List AskQ))
    → IfSome (All IsAnswerable) rest
    → IfSome (All IsAnswerable) (cons_option (is_asked (question_of q)) (question_of q) rest)
unfolding cons_option IfSome
cons_option-IfSome q none h = tt
cons_option-IfSome q (some rest) h = elim (Bool-cases (is_asked (question_of q))) [
  | inl e ↦ rw e (question_of-IsAnswerable q e, h)
  | inr e ↦ rw e h
]

pub questions_in-IfSome : (items : Items) → IfSome (All IsAnswerable) (questions_in items)
unfolding questions_in
questions_in-IfSome no_item = unfold IfSome in tt
questions_in-IfSome (item null items) = unfold IfSome in tt
questions_in-IfSome (item (truth b) items) =
    cons_option-IfSome (truth b) _ (questions_in-IfSome items)
questions_in-IfSome (item (number n) items) =
    cons_option-IfSome (number n) _ (questions_in-IfSome items)
questions_in-IfSome (item (string s) items) =
    cons_option-IfSome (string s) _ (questions_in-IfSome items)
questions_in-IfSome (item (array a) items) =
    cons_option-IfSome (array a) _ (questions_in-IfSome items)
questions_in-IfSome (item (object o) items) =
    cons_option-IfSome (object o) _ (questions_in-IfSome items)
