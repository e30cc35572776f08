-- ===== src/Ask/Kept.antt =====
-- What `parseAsk` has collected at every moment of its loops.
use mathlib.Core.Path.{subst}
use dgx_spark_llm_platform.Base.{
  ℕ, ◌+◌, min, ◌≤◌, Bool, true, false, ◌||◌, List, [], ◌∷◌, ◌++◌, map, Option, none, some, length,
  length-append, leb, All, All-append, if◌then◌else◌, ◌≡◌, refl, sym, ap, ◌∙◌, arith, Bool-cases,
  inl, inr,
}
use dgx_spark_llm_platform.Base.Text.{codes, Text, text_eq, text_eq_comm}
use dgx_spark_llm_platform.Decisions.Value.{Json}
use dgx_spark_llm_platform.Ask.{
  Candidate, Asked, is_seen, is_within, keep_questions, keep_read, keep_candidates, at_block,
  keep_blocks, collect, question_candidates,
}
use dgx_spark_llm_platform.Ask.Blocks.{Block, blocks, ask_head, json_head, bare_head, file_bounds}
use dgx_spark_llm_platform.Ask.Values.{
  AskQ, max_ask_questions, questions_of, questions_in, list_or_one, member, read_value,
}
use dgx_spark_llm_platform.Ask.Answerable.{IsAnswerable, IfSome, questions_in-IfSome}

below_bound : (n : ℕ) {m : ℕ} → m ≡ n + 1 → leb max_ask_questions n ≡ false → m ≤ max_ask_questions
below_bound n e h = ground arith

or_comm : (a b c : Bool) → b ≡ c → (a || b) ≡ (c || a)
or_comm a b c h = ground arith

-- No key twice.
unfoldable pub NoRepeat : List Text → Type 0
unfolding is_seen
NoRepeat [] = Unit
NoRepeat (k ∷ ks) = (is_seen k ks ≡ false) × NoRepeat ks

is_seen-append :
    (k : Text) (ks : List Text) (l : Text)
    → is_seen k (ks ++ l ∷ []) ≡ (is_seen k ks || text_eq k l)
unfolding is_seen
is_seen-append k [] l = ground arith
is_seen-append k (j ∷ ks) l = ground (arith, is_seen-append k ks l)

NoRepeat-append :
    (ks : List Text) (l : Text) → NoRepeat ks → is_seen l ks ≡ false → NoRepeat (ks ++ l ∷ [])
unfolding NoRepeat is_seen
NoRepeat-append [] l h e = (refl, tt)
NoRepeat-append (k ∷ ks) l (p, h) e = (
  is_seen-append k ks l ∙ ground (arith, text_eq_comm k l),
  NoRepeat-append ks l h (ground (arith, e)),
)

neither : (a b : Bool) → (a || b) ≡ false → (a ≡ false) × (b ≡ false)
neither a b h = (ground arith, ground arith)

module _ (parse : Text → Option Json) (to_lower : Text → Text) where
  abbrev pub keys : List AskQ → List Text
  keys = map (λ q. to_lower q.question)

  questions_of-IfSome : (body : Text) → IfSome (All IsAnswerable) (questions_of parse body)
  unfolding questions_of
  questions_of-IfSome body = from (read_value parse body)
    where
      from :
          (v : Option Json)
          → IfSome (All IsAnswerable) (elim v [
            | none ↦ some []
            | some v ↦
                questions_in
                  (list_or_one v (member (codes "questions") v) (member (codes "question") v))
          ])
      from none = unfold IfSome in tt
      from (some v) =
          questions_in-IfSome
            (list_or_one v (member (codes "questions") v) (member (codes "question") v))

  -- What is collected so far.
  unfoldable pub IsKept : Asked → Type 0
  IsKept asked =
      All IsAnswerable asked.questions
      × (length asked.questions ≤ max_ask_questions)
      × NoRepeat (keys asked.questions)
      × ((k : Text) → is_seen k asked.seen ≡ is_seen k (keys asked.questions))

  map-append_last :
      (qs : List AskQ) (q : AskQ) → keys (qs ++ q ∷ []) ≡ keys qs ++ to_lower q.question ∷ []
  map-append_last [] q = refl
  map-append_last (p ∷ qs) q = ap (◌∷◌ (to_lower p.question)) (map-append_last qs q)

  -- One more question, with a key that is new, while there is room.
  IsKept-add :
      (asked : Asked) (q : AskQ)
      → IsKept asked
      → IsAnswerable q
      → is_seen (to_lower q.question) asked.seen ≡ false
      → leb max_ask_questions (length asked.questions) ≡ false
      → IsKept (record asked {
        questions = asked.questions ++ q ∷ [];
        seen = to_lower q.question ∷ asked.seen;
      })
  unfolding IsKept is_seen
  IsKept-add asked q (all, few, fresh, same) h new room =
      let key = to_lower q.question in
      (
        All-append IsAnswerable asked.questions (q ∷ []) all (h, tt),
        below_bound (length asked.questions) (length-append asked.questions (q ∷ [])) room,
        subst NoRepeat (sym (map-append_last asked.questions q))
            (NoRepeat-append (keys asked.questions) key fresh (sym (same key) ∙ new)),
        λ k.
            or_comm (text_eq k key) (is_seen k asked.seen) (is_seen k (keys asked.questions))
              (same k)
            ∙ sym (is_seen-append k (keys asked.questions) key)
            ∙ ap (is_seen k) (sym (map-append_last asked.questions q)),
      )

  keep_one-IsKept :
      (asked : Asked) (q : AskQ)
      → IsKept asked
      → IsAnswerable q
      → IsKept (
          if is_seen (to_lower q.question) asked.seen
            || leb max_ask_questions (length asked.questions)
          then asked
          else record asked {
            questions = asked.questions ++ q ∷ [];
            seen = to_lower q.question ∷ asked.seen;
          })
  keep_one-IsKept asked q kept h =
      let seen = is_seen (to_lower q.question) asked.seen in
      let full = leb max_ask_questions (length asked.questions) in
      elim (Bool-cases (seen || full)) [
        | inl e ↦ rw e kept
        | inr e ↦ rw e (IsKept-add asked q kept h (neither seen full e).0 (neither seen full e).1)
      ]

  keep_questions-IsKept :
      (qs : List AskQ) (asked : Asked)
      → All IsAnswerable qs
      → IsKept asked
      → IsKept (keep_questions parse to_lower qs asked)
  unfolding keep_questions
  keep_questions-IsKept [] asked h kept = kept
  keep_questions-IsKept (q ∷ qs) asked (p, h) kept =
      keep_questions-IsKept qs _ h (keep_one-IsKept asked q kept p)

  -- Where the first question starts does not matter.
  IsKept-first : (asked : Asked) (n : ℕ) → IsKept asked → IsKept (record asked { first = n })
  unfolding IsKept
  IsKept-first asked n kept = kept

  keep_candidates-IsKept :
      (files : List (ℕ × ℕ)) (offset : ℕ) (cs : List Candidate) (asked : Option Asked)
      → IfSome IsKept asked
      → IfSome IsKept (keep_candidates parse to_lower files offset cs asked)
  unfolding keep_candidates IfSome
  keep_candidates-IsKept files offset cs none kept = kept
  keep_candidates-IsKept files offset [] (some asked) kept = kept
  keep_candidates-IsKept files offset (c ∷ cs) (some asked) kept =
      keep_candidates-IsKept files offset cs _ (one (is_within files start (offset + c.end)))
    where
      start : ℕ
      start = offset + c.start

      read :
          (qs : Option (List AskQ))
          → IfSome (All IsAnswerable) qs
          → IfSome IsKept
              (keep_read parse to_lower qs (record asked { first = min asked.first start }))
      read none h = tt
      read (some qs) h = keep_questions-IsKept qs _ h (IsKept-first asked _ kept)

      one :
          (within : Bool)
          → IfSome IsKept (
              if within
              then some asked
              else keep_read parse to_lower
                  (questions_of parse c.text)
                  (record asked { first = min asked.first start }))
      one true = kept
      one false = read (questions_of parse c.text) (questions_of-IfSome c.text)

  at_block-IsKept :
      (b : Block) (asked : Option Asked)
      → IfSome IsKept asked
      → IfSome IsKept (at_block parse to_lower b asked)
  unfolding at_block IfSome
  at_block-IsKept b none kept = tt
  at_block-IsKept b (some asked) kept = IsKept-first asked _ kept

  keep_blocks-IsKept :
      (files : List (ℕ × ℕ)) (bs : List Block) (asked : Option Asked)
      → IfSome IsKept asked
      → IfSome IsKept (keep_blocks parse to_lower files bs asked)
  unfolding keep_blocks
  keep_blocks-IsKept files [] asked kept = kept
  keep_blocks-IsKept files (b ∷ bs) asked kept =
      keep_blocks-IsKept files bs _
        (keep_candidates-IsKept files _ _ _ (at_block-IsKept b asked kept))

  IsKept-nothing : (n : ℕ) → IsKept (record { questions = []; seen = []; first = n })
  unfolding IsKept NoRepeat is_seen
  IsKept-nothing n = (tt, omega arith, tt, λ k. refl)

  pub collect-IsKept : (content : Text) → IfSome IsKept (collect parse to_lower content)
  unfolding collect IfSome
  collect-IsKept content =
      let files = file_bounds content in
      keep_candidates-IsKept files 0 (question_candidates content) _ (
        keep_blocks-IsKept files (blocks bare_head content) _ (
          keep_blocks-IsKept files (blocks json_head content) _ (
            keep_blocks-IsKept files (blocks ask_head content)
              (some (record { questions = []; seen = []; first = length content }))
              (IsKept-nothing (length content)))))
