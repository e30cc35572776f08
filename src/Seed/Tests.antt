-- ===== src/Seed/Tests.antt =====
-- Runs and witnesses of the seeds.
use dgx_spark_llm_platform.Base.{
  ℕ, true, false, [], ◌∷◌, none, some, ◌≡◌, refl, not, ◌&&◌, if◌then◌else◌,
}
use dgx_spark_llm_platform.Base.Text.{codes, text_eq}
use dgx_spark_llm_platform.Seed.{Seed, use_seed, has_id}
use dgx_spark_llm_platform.Seed.Once.{fresh_mounts, is_mounted, fresh_mounts_lem}

abbrev seed : Seed ℕ
seed = record {
  id = codes "s1";
  data_of = (codes "a", some 1) ∷ (codes "b", none) ∷ [];
  forbidden = none;
}

use_seed_run :
    (use_seed true (some seed) []
      ≡ (seed.data_of, (codes "a", true) ∷ (codes "b", false) ∷ [], codes "s1" ∷ []))
    × ((use_seed true (some seed) (codes "s1" ∷ [])).1
        ≡ (codes "a", false) ∷ (codes "b", false) ∷ [])
unfolding use_seed text_eq
use_seed_run = (refl, refl)

fresh_mounts_lem_example : fresh_mounts (codes "s1") (some seed ∷ none ∷ some seed ∷ []) [] ≡ (
    if is_mounted (codes "s1") (some seed ∷ none ∷ some seed ∷ []) && not (has_id (codes "s1") [])
    then 1
    else 0)
fresh_mounts_lem_example = fresh_mounts_lem (codes "s1") (some seed ∷ none ∷ some seed ∷ []) []
