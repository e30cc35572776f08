-- ===== src/Gate/Laws.antt =====
-- What the gate decides.
use dgx_spark_llm_platform.Base.{
  ℕ, zero, suc, true, false, [], ◌∷◌, ◌++◌, ◌≡◌, ◌≢◌, refl, sym, ap, ◌∙◌, arith, all, replicate,
  ◌==◌, append-nil,
}
use dgx_spark_llm_platform.Base.Text.{Text}
use dgx_spark_llm_platform.Gate.{slash, strip_slashes, page_path, GateInput, gate_decision}

-- The text is not empty, and its last character is no slash.
abbrev pub EndsPlain : Text → Type 0
EndsPlain [] = ⊥
EndsPlain (c ∷ []) = c ≢ slash
EndsPlain (c ∷ d ∷ s) = EndsPlain (d ∷ s)

all_slashes : (n : ℕ) → all (λ d. d == slash) (replicate n slash) ≡ true
all_slashes zero = refl
all_slashes (suc n) = all_slashes n

strip_slashes-replicate : (n : ℕ) → strip_slashes (replicate n slash) ≡ []
unfolding strip_slashes
strip_slashes-replicate zero = refl
strip_slashes-replicate (suc n) = rw (all_slashes n) refl

not_all_slashes : (s t : Text) → EndsPlain s → all (λ d. d == slash) (s ++ t) ≡ false
not_all_slashes [] t h = absurd h
not_all_slashes (c ∷ []) t h = ground arith
not_all_slashes (c ∷ d ∷ s) t h = ground (arith, not_all_slashes (d ∷ s) t h)

strip_slashes-append : (s : Text) (n : ℕ) → EndsPlain s → strip_slashes (s ++ replicate n slash) ≡ s
unfolding strip_slashes
strip_slashes-append [] n h = absurd h
strip_slashes-append (c ∷ []) n h =
    ground (arith, not_all_slashes (c ∷ []) (replicate n slash) h, strip_slashes-replicate n)
strip_slashes-append (c ∷ d ∷ s) n h =
    rw (not_all_slashes (c ∷ d ∷ s) (replicate n slash) h)
      (ap (◌∷◌ c) (strip_slashes-append (d ∷ s) n h))

page_path-append : (s : Text) (n : ℕ) → EndsPlain s → page_path (s ++ replicate n slash) ≡ s
unfolding page_path
page_path-append [] n h = absurd h
page_path-append (c ∷ []) zero h = refl
page_path-append (c ∷ []) (suc n) h = ground (arith, strip_slashes-append (c ∷ []) (suc n) h)
page_path-append (c ∷ d ∷ s) n h = ground (arith, strip_slashes-append (c ∷ d ∷ s) n h)

-- Slashes behind a path that does not end in one change nothing in the decision, whatever the
-- method and the visitor.
pub gate_decision-slashes :
    (i : GateInput) (n : ℕ)
    → EndsPlain i.pathname
    → gate_decision (record i { pathname = i.pathname ++ replicate n slash }) ≡ gate_decision i
unfolding gate_decision
gate_decision-slashes i n h =
    let plain : page_path i.pathname ≡ i.pathname =
      ap page_path (sym (append-nil i.pathname)) ∙ page_path-append i.pathname 0 h in
    rw (page_path-append i.pathname n h, plain) refl
