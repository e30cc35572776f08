-- ===== src/Backend/Tests.antt =====
-- Runs of the routing, and its theorems at one input.
use dgx_spark_llm_platform.Base.{true, false, [], ◌∷◌, ◌≡◌, ◌↔◌, refl}
use dgx_spark_llm_platform.Base.Text.{
  Text, codes, text_eq, split, trim, trim_start, trim_end, is_space,
}
use dgx_spark_llm_platform.Backend.{covers, upper, parse_prefixes, has_space, ends_with_char}
use dgx_spark_llm_platform.Backend.Prefixes.{IsBelow, covers-IsBelow_iff}

abbrev get : Text
get = codes "GET"

covers_run :
    (covers get (codes "/api/ranking/me") (codes "/api/ranking") ≡ true)
    × (covers get (codes "/api/rankings") (codes "/api/ranking") ≡ false)
    × (covers get (codes "/keys") (codes "POST /keys") ≡ false)
    × (covers get (codes "/admin/users/7/unblock") (codes "get /admin/users/*/unblock$") ≡ true)
unfolding covers text_eq split is_space upper
covers_run = (refl, refl, refl, refl)

parse_prefixes_run :
    parse_prefixes (codes "# moved\n /api \n\nPOST /keys") ≡ codes "/api" ∷ codes "POST /keys" ∷ []
unfolding parse_prefixes split trim trim_start trim_end is_space
parse_prefixes_run = refl

covers-IsBelow_iff_example :
    (covers get (codes "/api/x") (codes "/api") ≡ true) ↔ IsBelow (codes "/api") (codes "/api/x")
unfolding has_space ends_with_char split
covers-IsBelow_iff_example =
    covers-IsBelow_iff get (codes "/api/x") (codes "/api") refl refl refl (λ e. cc, (λ e. cc, tt))
