-- ===== src/Voice/Reading.antt =====
-- A turn that is voiced: what has been cut of its answer covers it, and nothing is read twice.
use dgx_spark_llm_platform.Base.{
  ℕ, suc, ◌+◌, ◌≤◌, Bool, true, false, List, [], ◌∷◌, Option, none, some, get_elem?, ◌&&◌, ◌++◌,
  if◌then◌else◌, append_assoc, length, length-append, take, length-take, take-append-drop, drop,
  slice, ltb, ◌≡◌, refl, sym, ap, ◌∙◌, arith, Bool-cases, ◌⊎◌, inl, inr,
}
use mathlib.Core.Path.{subst}
use dgx_spark_llm_platform.Base.Text.{Text, trim}
use dgx_spark_llm_platform.Messages.{ChatMsg}
use dgx_spark_llm_platform.Voice.{
  Sentence, next_sentences, Turn, restart, await, begin_at, voiced, is_final, is_answer,
  read_answer, read_voiced, watch, hand, pump, Event, seen, pumped, speak_all,
}
use dgx_spark_llm_platform.Voice.Spoken.{
  Spoken, done, blank, says, Spoken-append, Spoken-grow, Covers, slice-append, next_sentences-any,
  next_sentences-Covers,
}

Spoken-order : {text : Text} {n e : ℕ} {ss : List Sentence} → Spoken text n ss e → n ≤ e
Spoken-order done = omega arith
Spoken-order (blank p q b g) = omega (arith, p, Spoken-order g)
Spoken-order (says p q b g) = omega (arith, p, Spoken-order g)

slice-take :
    (n m e : ℕ) (text : Text) → m ≤ e → m ≤ length text → slice n m (take e text) ≡ slice n m text
slice-take n m e text p q =
    sym (slice-append n m (take e text) (drop e text) (omega (arith, length-take e text)))
    ∙ ap (slice n m) (take-append-drop e text)

-- What is read lies in the part that is cut.
Spoken-take :
    {text : Text} {n e : ℕ} {ss : List Sentence} → Spoken text n ss e → Spoken (take e text) n ss e
Spoken-take done = done
Spoken-take {text} {n} {e} (blank {m = m} p q b g) =
    let order = Spoken-order g in
    blank p (omega (arith, order, length-take e text)) (ap trim (slice-take n m e text order q) ∙ b)
      (Spoken-take g)
Spoken-take {text} {n} {e} (says {m = m} p q b g) =
    let order = Spoken-order g in
    says p (omega (arith, order, length-take e text)) (ap trim (slice-take n m e text order q) ∙ b)
      (Spoken-take g)

-- The sentences of a turn, those handed on first.
abbrev pub sentences_of : Turn → List Sentence
sentences_of tr = tr.given ++ tr.queue

-- What has been cut of the text is covered by the sentences of the turn.
abbrev pub IsSpoken : Text → Turn → Type 0
IsSpoken text tr = Spoken text 0 (sentences_of tr) tr.cut × tr.cut ≤ length text

-- The new text begins with what was cut of the old one, or is shorter than that.
abbrev pub Follows : Text → Turn → Text → Type 0
Follows old tr text =
    ((more : Text) × (text ≡ take tr.cut old ++ more)) ⊎ (suc (length text) ≤ tr.cut)

-- The text that is read, where there is one, follows.
abbrev pub FollowsVoiced : Text → Turn → Option Text → Type 0
FollowsVoiced old tr none = Unit
FollowsVoiced old tr (some text) = Follows old tr text

abbrev pub text_or : Text → Option Text → Text
text_or old none = old
text_or old (some text) = text

-- The text read last, after these events.
unfoldable pub last_text : (Text → Text) → Text → List Event → Turn → Text
unfolding await voiced watch pump
last_text speakable old [] tr = old
last_text speakable old (seen messages streaming ∷ events) tr =
    last_text speakable (text_or old (voiced speakable messages (await messages tr))) events
      (watch speakable messages streaming tr)
last_text speakable old (pumped ∷ events) tr = last_text speakable old events (pump tr)

-- The text follows at each event.
unfoldable pub IsKept : (Text → Text) → Text → List Event → Turn → Type 0
unfolding await voiced watch pump
IsKept speakable old [] tr = Unit
IsKept speakable old (seen messages streaming ∷ events) tr =
    let turn = await messages tr in
    let text = voiced speakable messages turn in
    FollowsVoiced old turn text
    × IsKept speakable (text_or old text) events (watch speakable messages streaming tr)
IsKept speakable old (pumped ∷ events) tr = IsKept speakable old events (pump tr)

Follows-Spoken :
    (old : Text) (tr : Turn) (text : Text)
    → IsSpoken old tr
    → Follows old tr text
    → let kept = if ltb (length text) tr.cut then restart tr else tr in IsSpoken text kept
Follows-Spoken old tr text (h, w) (inl (more, e)) =
    let long : tr.cut ≤ length text =
      omega (arith, ap length e, length-append (take tr.cut old) more, length-take tr.cut old, w) in
    let fits : ltb (length text) tr.cut ≡ false = ground arith in
    rw fits (
      subst (λ s. Spoken s 0 (sentences_of tr) tr.cut) (sym e) (Spoken-grow more (Spoken-take h)),
      long,
    )
Follows-Spoken old tr text (h, w) (inr short) =
    let less : ltb (length text) tr.cut ≡ true = ground arith in rw less (done, omega arith)

read_answer-IsSpoken :
    (old : Text) (tr : Turn) (text : Text) (final : Bool)
    → IsSpoken old tr
    → Follows old tr text
    → IsSpoken text (read_answer text final tr)
unfolding read_answer
read_answer-IsSpoken old tr text final h f =
    let kept = if ltb (length text) tr.cut then restart tr else tr in
    let (spoken, within) = Follows-Spoken old tr text h f in
    let (more, end) = next_sentences-any text kept.cut final within in
    (
      subst (λ ss. Spoken text 0 ss ((next_sentences text kept.cut final).1))
          (append_assoc kept.given kept.queue _) (Spoken-append spoken more),
      end,
    )

pump-IsSpoken : (text : Text) (tr : Turn) → IsSpoken text tr → IsSpoken text (pump tr)
unfolding pump hand
pump-IsSpoken text tr h = handed tr.queue refl
  where
    handed : (queue : List Sentence) → tr.queue ≡ queue → IsSpoken text (hand tr queue)
    handed [] e = h
    handed (s ∷ queue) e =
        subst (λ ss. IsSpoken text tr → Spoken text 0 ss tr.cut × tr.cut ≤ length text)
          (ap (λ q. tr.given ++ q) e ∙ sym (append_assoc tr.given (s ∷ []) queue)) (λ k. k) h

await-IsSpoken :
    (text : Text) (messages : List ChatMsg) (tr : Turn)
    → IsSpoken text tr
    → IsSpoken text (await messages tr)
unfolding await begin_at
await-IsSpoken text messages tr h = begun tr.await_from
  where
    begun : (from : Option ℕ) → IsSpoken text (begin_at messages tr from)
    begun none = h
    begun (some from) =
        elim (Bool-cases
          (ltb (from + 1) (length messages) && is_answer (get_elem? messages (from + 1)))) [
            | inl e ↦ rw e (done, omega arith)
            | inr e ↦ rw e h
          ]

read_voiced-IsSpoken :
    (old : Text) (tr : Turn) (text : Option Text) (final : Bool)
    → IsSpoken old tr
    → FollowsVoiced old tr text
    → IsSpoken (text_or old text) (read_voiced text final tr)
unfolding read_voiced
read_voiced-IsSpoken old tr none final h f = h
read_voiced-IsSpoken old tr (some text) final h f = read_answer-IsSpoken old tr text final h f

speak_all-IsSpoken :
    (speakable : Text → Text) (old : Text) (events : List Event) (tr : Turn)
    → IsSpoken old tr
    → IsKept speakable old events tr
    → IsSpoken (last_text speakable old events tr) (speak_all speakable events tr)
unfolding speak_all watch IsKept last_text
speak_all-IsSpoken speakable old [] tr h k = h
speak_all-IsSpoken speakable old (seen messages streaming ∷ events) tr h (f, k) =
    let turn = await messages tr in
    let text = voiced speakable messages turn in
    speak_all-IsSpoken speakable (text_or old text) events (watch speakable messages streaming tr)
      (read_voiced-IsSpoken old turn text (is_final messages streaming turn)
        (await-IsSpoken old messages tr h) f)
      k
speak_all-IsSpoken speakable old (pumped ∷ events) tr h k =
    speak_all-IsSpoken speakable old events (pump tr) (pump-IsSpoken old tr h) k

read_answer-Covers :
    (old : Text) (tr : Turn) (text : Text)
    → IsSpoken old tr
    → Follows old tr text
    → let read = read_answer text true tr in Covers text 0 (sentences_of read, read.cut)
unfolding read_answer Covers
read_answer-Covers old tr text spoken f =
    let kept = if ltb (length text) tr.cut then restart tr else tr in
    (
      (read_answer-IsSpoken old tr text true spoken f).0,
      (next_sentences-Covers text kept.cut ((Follows-Spoken old tr text spoken f).1)).1,
    )

-- The turn behind these events, once the effect has started on the messages.
abbrev pub turn_after : (Text → Text) → Turn → List Event → List ChatMsg → Turn
turn_after speakable start events messages =
    await messages (speak_all speakable events (restart start))

-- From a turn that has no sentence yet, however the messages grow and the sentences are handed on:
-- where the spoken text begins each time with what was cut of the one before, or has become shorter
-- than that (the turn then starts again), and the effect at last reads a text that is final, the
-- sentences handed on and those that still wait, in order, cover that text: each is a piece of it,
-- trimmed, each starts at or behind the end of the one before, and whatever lies between them or
-- behind the last is blank.
pub speak_all-Covers :
    (speakable : Text → Text) (start : Turn) (events : List Event) (messages : List ChatMsg)
    (streaming : Bool) (text : Text)
    → IsKept speakable [] events (restart start)
    → voiced speakable messages (turn_after speakable start events messages) ≡ some text
    → is_final messages streaming (turn_after speakable start events messages) ≡ true
    → Follows
        (last_text speakable [] events (restart start))
        (turn_after speakable start events messages)
        text
    → let tr = watch speakable messages streaming (speak_all speakable events (restart start)) in
      Covers text 0 (sentences_of tr, tr.cut)
unfolding watch read_voiced
speak_all-Covers speakable start events messages streaming text k v final f =
    let before = speak_all speakable events (restart start) in
    let old = last_text speakable [] events (restart start) in
    let spoken = speak_all-IsSpoken speakable [] events (restart start) (done, omega arith) k in
    rw (v, final)
      (read_answer-Covers old (await messages before) text
        (await-IsSpoken old messages before spoken) f)
