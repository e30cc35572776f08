-- ===== src/Player/Samples.antt =====
-- The samples do not depend on how the network cuts the sound.
use dgx_spark_llm_platform.Base.{
  ℕ, ◌+◌, ◌*◌, List, [], ◌∷◌, ◌++◌, append-nil, append_assoc, ◌≡◌, refl, sym, ap, ◌∙◌,
}
use dgx_spark_llm_platform.Stream.Chunks.{flat}
use dgx_spark_llm_platform.Player.{cut_pairs, read_samples}

cut_pairs-append :
    (xs ys : List ℕ)
    → (cut_pairs (xs ++ ys)).0 ≡ (cut_pairs xs).0 ++ (cut_pairs ((cut_pairs xs).1 ++ ys)).0
unfolding cut_pairs
cut_pairs-append [] ys = refl
cut_pairs-append (a ∷ []) ys = refl
cut_pairs-append (a ∷ b ∷ xs) ys = ap (◌∷◌ (a + b * 256)) (cut_pairs-append xs ys)

carry_short : (xs : List ℕ) → (cut_pairs ((cut_pairs xs).1)).0 ≡ []
unfolding cut_pairs
carry_short [] = refl
carry_short (a ∷ []) = refl
carry_short (a ∷ b ∷ xs) = carry_short xs

from_carry :
    (carry : List ℕ) (values : List (List ℕ))
    → (cut_pairs carry).0 ≡ []
    → read_samples carry values ≡ (cut_pairs (carry ++ flat values)).0
unfolding read_samples
from_carry carry [] h = sym (ap (λ b. (cut_pairs b).0) (append-nil carry) ∙ h)
from_carry carry (value ∷ values) h =
    ap ((cut_pairs (carry ++ value)).0 ++◌)
      (from_carry (cut_pairs (carry ++ value)).1 values (carry_short (carry ++ value)))
    ∙ sym (cut_pairs-append (carry ++ value) (flat values))
    ∙ ap (λ b. (cut_pairs b).0) (append_assoc carry value (flat values))

-- However the network cuts the sound, the samples that are played are the pairs of bytes of the
-- whole sound, in order: no byte is lost or paired with another one, but for a last odd byte.
pub read_samples-flat :
    (values : List (List ℕ)) → read_samples [] values ≡ (cut_pairs (flat values)).0
read_samples-flat values = from_carry [] values (unfold cut_pairs in refl)
