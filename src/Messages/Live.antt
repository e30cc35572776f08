-- ===== src/Messages/Live.antt =====
-- The turn being streamed, and how a page follows it: `beginLiveTurn`, `getLiveTurn`,
-- `endLiveTurn` and `usePendingFollow` of dgx-portal-frontend/lib/playground-messages.ts. A turn
-- object is known by a number, as the source compares references. The times and the counters are
-- left out.
use dgx_spark_llm_platform.Base.{
  ℕ, suc, ◌<◌, Bool, true, false, not, ◌&&◌, List, [], ◌∷◌, Option, none, some, ◌==◌, if◌then◌else◌,
  ◌≡◌, ◌≢◌, ◌↔◌, refl, ◌∙◌, arith, All, Bool-cases, inl, inr,
}
use dgx_spark_llm_platform.Base.Text.{Text}

pub record LiveTurn : Type 0 where
  pub conv_id : Option Text
  -- The abort controller, by its number.
  pub controller : ℕ
  pub text : Text
  pub reasoning : Text

-- The module's state, with the number of the next object.
pub record LiveState : Type 0 where
  pub next : ℕ
  pub live : Option (ℕ × LiveTurn)

unfoldable pub begin_live_turn : Option Text → ℕ → LiveState → ℕ × LiveState
begin_live_turn conv_id controller st = (
  st.next,
  record {
    next = suc st.next;
    live =
        some (
          st.next,
          record { conv_id = conv_id; controller = controller; text = []; reasoning = [] },
        );
  },
)

unfoldable pub get_live_turn : LiveState → Option (ℕ × LiveTurn)
get_live_turn st = st.live

-- `liveTurn === turn`
unfoldable pub is_live : ℕ → Option (ℕ × LiveTurn) → Bool
is_live turn none = false
is_live turn (some (r, t)) = r == turn

unfoldable pub end_live_turn : ℕ → LiveState → LiveState
end_live_turn turn st = if is_live turn st.live then record { next = st.next; live = none } else st

-- The calls that pages make.
pub data Call : Type 0 where
  begins : Option Text → ℕ → Call
  ends : ℕ → Call

unfoldable pub run_calls : List Call → LiveState → LiveState
unfolding begin_live_turn end_live_turn is_live
run_calls [] st = st
run_calls (begins conv_id controller ∷ calls) st =
    run_calls calls (begin_live_turn conv_id controller st).1
run_calls (ends turn ∷ calls) st = run_calls calls (end_live_turn turn st)

-- A call that leaves turn `r` alone: the end of another turn.
abbrev pub Spares : ℕ → Call → Type 0
Spares r (begins conv_id controller) = ⊥
Spares r (ends turn) = turn ≢ r

next-end_live_turn : (turn : ℕ) (st : LiveState) → (end_live_turn turn st).next ≡ st.next
unfolding end_live_turn
next-end_live_turn turn st = ground arith

live-end_live_turn :
    (turn r : ℕ) (st : LiveState)
    → is_live r (end_live_turn turn st).live ≡ (is_live r st.live && not (turn == r))
unfolding end_live_turn is_live
live-end_live_turn turn r st = go st.live
  where
    go :
        (live : Option (ℕ × LiveTurn))
        → is_live r
            (if◌then◌else◌ {A = LiveState}
              (is_live turn live)
              (record { next = st.next; live = none })
              (record { next = st.next; live = live })).live
          ≡ (is_live r live && not (turn == r))
    go none = refl
    go (some (q, t)) = ground arith

gone :
    (calls : List Call) (r : ℕ) (st : LiveState)
    → r < st.next
    → is_live r st.live ≡ false
    → is_live r (run_calls calls st).live ≡ false
unfolding run_calls
gone [] r st h k = k
gone (begins conv_id controller ∷ calls) r st h k =
    gone calls r _ (omega arith) (unfold is_live in ground arith)
gone (ends turn ∷ calls) r st h k =
    gone calls r (end_live_turn turn st) (rw (next-end_live_turn turn st) h)
      (live-end_live_turn turn r st ∙ ground arith)

spared :
    (calls : List Call) (r : ℕ) (st : LiveState)
    → r < st.next
    → is_live r st.live ≡ true
    → (is_live r (run_calls calls st).live ≡ true) ↔ All (Spares r) calls
unfolding run_calls
spared [] r st h k = (λ _. tt, λ _. k)
spared (begins conv_id controller ∷ calls) r st h k =
    let lost =
      gone calls r (begin_live_turn conv_id controller st).1 (unfold begin_live_turn in omega arith)
        (unfold is_live begin_live_turn in ground arith) in
    (λ e. absurd (ground (arith, lost)), λ (never, _). absurd never)
spared (ends turn ∷ calls) r st h k = elim (Bool-cases (turn == r)) [
  | inl same ↦
      let lost =
        gone calls r (end_live_turn turn st) (rw (next-end_live_turn turn st) h)
          (live-end_live_turn turn r st ∙ ground arith) in
      (λ e. absurd (ground (arith, lost)), λ (other, _). absurd (other (ground arith)))
  | inr other ↦
      let (to, from) =
        spared calls r (end_live_turn turn st) (rw (next-end_live_turn turn st) h)
          (live-end_live_turn turn r st ∙ ground arith) in
      (λ e. (ground arith, to e), λ (_, rest). from rest)
]

-- A turn that begins is the live one, whatever was live before; it stays the live one through the
-- calls that follow exactly as long as no other turn begins and it is not ended itself: ending an
-- older turn does not touch it.
pub begin_live_turn-run_calls :
    (conv_id : Option Text) (controller : ℕ) (st : LiveState) (calls : List Call)
    → let (turn, begun) = begin_live_turn conv_id controller st in
      (is_live turn (get_live_turn begun) ≡ true)
      × ((is_live turn (get_live_turn (run_calls calls begun)) ≡ true) ↔ All (Spares turn) calls)
unfolding begin_live_turn get_live_turn
begin_live_turn-run_calls conv_id controller st calls =
    let live : (st.next == st.next) ≡ true = ground arith in
    (unfold is_live in live, spared calls st.next _ (omega arith) (unfold is_live in live))
