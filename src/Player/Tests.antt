-- ===== src/Player/Tests.antt =====
-- Runs and witnesses of the samples of a sound.
use dgx_spark_llm_platform.Base.{ℕ, List, [], ◌∷◌, ◌≡◌, refl}
use dgx_spark_llm_platform.Stream.Chunks.{flat}
use dgx_spark_llm_platform.Player.{cut_pairs, read_samples}
use dgx_spark_llm_platform.Player.Samples.{read_samples-flat}

abbrev parts : List (List ℕ)
parts = (1 ∷ 2 ∷ 3 ∷ []) ∷ [] ∷ (1 ∷ 5 ∷ []) ∷ []

read_samples_run : read_samples [] parts ≡ 513 ∷ 259 ∷ []
unfolding read_samples
read_samples_run = refl

read_samples-flat_example : read_samples [] parts ≡ (cut_pairs (flat parts)).0
read_samples-flat_example = read_samples-flat parts
