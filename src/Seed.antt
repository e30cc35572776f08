-- ===== src/Seed.antt =====
-- The data that the server renders into a page: dgx-portal-frontend/lib/seed.ts. The set of seeds
-- that were claimed is explicit; `is_browser` is whether there is a window.
mod Tests
pub mod Once
use dgx_spark_llm_platform.Base.{
  ℕ, Bool, true, false, not, ◌&&◌, ◌||◌, List, [], ◌∷◌, Option, none, some, if◌then◌else◌,
}
use dgx_spark_llm_platform.Base.Text.{Text, text_eq}

-- A seed: its identifier, the answers by key, none where the server could not read one, and whether
-- a read was forbidden.
pub record Seed (A : Type 0) : Type 0 where
  pub id : Text
  pub data_of : List (Text × Option A)
  pub forbidden : Option Bool

-- `claimed.has(id)`
unfoldable pub has_id : Text → List Text → Bool
unfolding text_eq
has_id id [] = false
has_id id (c ∷ claimed) = text_eq c id || has_id id claimed

-- `claim`: whether the seed is fresh, and the set behind it.
unfoldable pub claim : {A : Type 0} → Bool → Option (Seed A) → List Text → Bool × List Text
unfolding has_id
claim is_browser none claimed = (false, claimed)
claim false (some seed) claimed = (true, claimed)
claim true (some seed) claimed =
    if has_id seed.id claimed then (false, claimed) else (true, seed.id ∷ claimed)

unfoldable pub is_there : {A : Type 0} → Option A → Bool
is_there none = false
is_there (some a) = true

unfoldable pub mark_fresh : {A : Type 0} → Bool → List (Text × Option A) → List (Text × Bool)
unfolding is_there
mark_fresh is_fresh [] = []
mark_fresh is_fresh ((key, a) ∷ rest) = (key, is_fresh && is_there a) ∷ mark_fresh is_fresh rest

unfoldable pub data_or_none : {A : Type 0} → Option (Seed A) → List (Text × Option A)
data_or_none none = []
data_or_none (some seed) = seed.data_of

-- The state that `useSeed` starts with: the data, what of it is fresh, and the set behind it.
unfoldable pub use_seed :
    {A : Type 0}
    → Bool
    → Option (Seed A)
    → List Text
    → List (Text × Option A) × List (Text × Bool) × List Text
unfolding claim mark_fresh data_or_none
use_seed is_browser seed claimed =
    let (is_fresh, after) = claim is_browser seed claimed in
    (data_or_none seed, mark_fresh is_fresh (data_or_none seed), after)
