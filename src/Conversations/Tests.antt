-- ===== src/Conversations/Tests.antt =====
-- Runs and witnesses of the history of conversations.
use dgx_spark_llm_platform.Base.{true, [], ◌∷◌, none, some, ◌≡◌, refl}
use dgx_spark_llm_platform.Base.Text.{codes, text_eq}
use dgx_spark_llm_platform.Decisions.Value.{
  Json, null, truth, array, object, item, no_item, field, no_field,
}
use dgx_spark_llm_platform.Http.{Response}
use dgx_spark_llm_platform.Conversations.{
  migrate_legacy, save, clear_local, relative_time, minutes, days, just_now,
}

abbrev page : Response
page = record { status = 200; body = none }

abbrev old : Json
old = object (field (codes "messages") (array (item (truth true) no_item)) no_field)

migrate_run :
    migrate_legacy true (some (array (item old (item null no_item))))
    ≡ (true, save old ∷ clear_local ∷ [])
unfolding migrate_legacy text_eq
migrate_run = refl

relative_run :
    (relative_time 59999 0 ≡ just_now)
    × (relative_time 3599999 0 ≡ minutes 59)
    × (relative_time 172800000 0 ≡ days 2)
unfolding relative_time
relative_run = (refl, refl, refl)
