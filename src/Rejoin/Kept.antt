-- ===== src/Rejoin/Kept.antt =====
-- What `rejoin` keeps of the file.
use dgx_spark_llm_platform.Base.{
  ℕ, zero, suc, ◌-◌, ◌≤◌, false, List, [], ◌∷◌, ◌++◌, append_assoc, Option, none, some, length,
  take, drop, take-append-drop, leb, ◌≡◌, refl, sym, ap, ◌∙◌, inl, inr, arith, Bool-cases,
}
use dgx_spark_llm_platform.Base.Text.{Text}
use dgx_spark_llm_platform.Rejoin.{rejoin, replaces, splice, Best, join_line, rejoin_max_removed}
use dgx_spark_llm_platform.Rejoin.Overlap.{join_line_lem}

take-take :
    {A : Type 0} (n m : ℕ) (xs : List A) → n ≤ m → (rest : List A) × (take m xs ≡ take n xs ++ rest)
take-take zero m xs h = (take m xs, refl)
take-take (suc n) zero xs h = absurd (omega arith)
take-take (suc n) (suc m) [] h = ([], refl)
take-take (suc n) (suc m) (x ∷ xs) h =
    let (rest, e) = take-take n m xs (omega arith) in (rest, ap (◌∷◌ x) e)

-- All of the file but its last 2000 characters.
abbrev pub beginning : Text → Text
beginning base = take (length base - rejoin_max_removed) base

join_line-beginning :
    (base continuation : Text)
    → (rest : Text) × (join_line base continuation ≡ beginning base ++ rest)
join_line-beginning base continuation =
    let (k, e, _) = join_line_lem base continuation in
    let cut = length base - rejoin_max_removed in
    (
      drop cut base ++ drop k continuation,
      e
          ∙ ap (λ b. b ++ drop k continuation) (sym (take-append-drop cut base))
          ∙ append_assoc (beginning base) (drop cut base) (drop k continuation),
    )

splice-beginning :
    (base continuation : Text) (best : Option Best)
    → (rest : Text) × (splice base continuation best ≡ beginning base ++ rest)
unfolding splice
splice-beginning base continuation none = join_line-beginning base continuation
splice-beginning base continuation (some best) =
    elim (Bool-cases (leb (length base - best.base) rejoin_max_removed)) [
      | inl near ↦
          let (rest, e) =
            take-take (length base - rejoin_max_removed) best.base base (ground arith) in
          rw near (
            rest ++ drop best.continuation continuation,
            ap (λ b. b ++ drop best.continuation continuation) e
                ∙ append_assoc (beginning base) rest (drop best.continuation continuation),
          )
      | inr far ↦ rw far (join_line-beginning base continuation)
    ]

-- A resumed answer never amputates the beginning of the file: unless the continuation rewrites the
-- whole document, the result begins with all of the file but at most its last 2000 characters.
pub rejoin-beginning :
    (base continuation : Text)
    → replaces base continuation ≡ false
    → (rest : Text) × (rejoin base continuation ≡ beginning base ++ rest)
unfolding rejoin
rejoin-beginning base continuation h = rw h (splice-beginning base continuation _)
