-- ===== src/Seed/Once.antt =====
-- A seed is fresh at most once in a browser.
use dgx_spark_llm_platform.Base.{
  ℕ, ◌+◌, Bool, true, false, not, ◌&&◌, ◌||◌, List, [], ◌∷◌, Option, none, some, if◌then◌else◌, ◌≡◌,
  refl, ap, arith, Bool-cases, inl, inr,
}
use dgx_spark_llm_platform.Base.Text.{Text, text_eq, text_eq_sound}
use dgx_spark_llm_platform.Seed.{Seed, has_id, claim}

-- The mounts of a browser, in order: how many of them find this seed fresh.
unfoldable pub fresh_mounts : {A : Type 0} → Text → List (Option (Seed A)) → List Text → ℕ
unfolding claim text_eq
fresh_mounts id [] claimed = 0
fresh_mounts id (none ∷ seeds) claimed = fresh_mounts id seeds claimed
fresh_mounts id (some seed ∷ seeds) claimed =
    let (is_fresh, after) = claim true (some seed) claimed in
    (if is_fresh && text_eq seed.id id then 1 else 0) + fresh_mounts id seeds after

-- Whether this seed is among those of the mounts.
unfoldable pub is_mounted : {A : Type 0} → Text → List (Option (Seed A)) → Bool
unfolding text_eq
is_mounted id [] = false
is_mounted id (none ∷ seeds) = is_mounted id seeds
is_mounted id (some seed ∷ seeds) = text_eq seed.id id || is_mounted id seeds

same_id :
    (a b : Text) (claimed : List Text) → text_eq a b ≡ true → has_id a claimed ≡ has_id b claimed
same_id a b claimed e = ap (λ k. has_id k claimed) (text_eq_sound a b e)

-- In a browser, a seed that comes back is fresh for the first mount that shows it, and for none of
-- the others; a seed that was claimed before is fresh for none.
pub fresh_mounts_lem :
    {A : Type 0} (id : Text) (seeds : List (Option (Seed A))) (claimed : List Text)
    → fresh_mounts id seeds claimed
      ≡ (if is_mounted id seeds && not (has_id id claimed) then 1 else 0)
unfolding fresh_mounts is_mounted has_id claim
fresh_mounts_lem id [] claimed = refl
fresh_mounts_lem id (none ∷ seeds) claimed = fresh_mounts_lem id seeds claimed
fresh_mounts_lem id (some seed ∷ seeds) claimed = elim (Bool-cases (has_id seed.id claimed)) [
  | inl c ↦ rw c (elim (Bool-cases (text_eq seed.id id)) [
    | inl e ↦
        rw e (ground (arith, fresh_mounts_lem id seeds claimed, same_id seed.id id claimed e, c))
    | inr e ↦ rw e (ground (arith, fresh_mounts_lem id seeds claimed))
  ])
  | inr c ↦ rw c (elim (Bool-cases (text_eq seed.id id)) [
    | inl e ↦ rw e (
        ground (
          arith,
          fresh_mounts_lem id seeds (seed.id ∷ claimed),
          same_id seed.id id claimed e,
          c,
          e,
        ))
    | inr e ↦ rw e (ground (arith, fresh_mounts_lem id seeds (seed.id ∷ claimed), e))
  ])
]
