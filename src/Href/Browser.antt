-- ===== src/Href/Browser.antt =====
-- What a browser makes of a URL before it reads the scheme, by the URL standard: control characters
-- and spaces go at both ends, tabs and line breaks go everywhere.
use dgx_spark_llm_platform.Base.{Bool, true, ◌&&◌, ◌||◌, [], ◌∷◌, leb, ◌==◌, if◌then◌else◌}
use dgx_spark_llm_platform.Base.Text.{Text}

unfoldable pub drop_start : Text → Text
drop_start [] = []
drop_start (c ∷ s) = let rest = drop_start s in if leb c 0x20 then rest else c ∷ s

unfoldable pub all_low : Text → Bool
all_low [] = true
all_low (c ∷ s) = leb c 0x20 && all_low s

unfoldable pub drop_end : Text → Text
unfolding all_low
drop_end [] = []
drop_end (c ∷ s) = let rest = drop_end s in if all_low (c ∷ s) then [] else c ∷ rest

unfoldable pub drop_breaks : Text → Text
drop_breaks [] = []
drop_breaks (c ∷ s) =
    let rest = drop_breaks s in if (c == 9) || (c == 10) || (c == 13) then rest else c ∷ rest

unfoldable pub as_read : Text → Text
unfolding drop_start drop_end drop_breaks
as_read url = drop_breaks (drop_end (drop_start url))
