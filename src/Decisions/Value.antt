-- ===== src/Decisions/Value.antt =====
-- JSON values, as `JSON.parse` gives them.
use dgx_spark_llm_platform.Base.{ℕ, suc, Bool, true, false, ◌&&◌, Option, none, some, if◌then◌else◌}
use dgx_spark_llm_platform.Base.Text.{Text, text_eq}

mutual
  pub data Json : Type 0 where
    null : Json
    truth : Bool → Json
    -- A number, by its literal.
    number : Text → Json
    string : Text → Json
    array : Items → Json
    object : Fields → Json

  pub data Items : Type 0 where
    no_item : Items
    item : Json → Items → Items

  pub data Fields : Type 0 where
    no_field : Fields
    field : Text → Json → Fields → Fields

unfoldable pub count_items : Items → ℕ
count_items no_item = 0
count_items (item v items) = suc (count_items items)

unfoldable pub count_fields : Fields → ℕ
count_fields no_field = 0
count_fields (field name v fields) = suc (count_fields fields)

unfoldable pub get_field : Text → Fields → Option Json
get_field name no_field = none
get_field name (field n v fields) =
    let rest = get_field name fields in if text_eq n name then some v else rest

unfoldable pub is_text : Json → Bool
is_text (string s) = true
is_text _ = false

-- `criteria.every((c) => typeof c === "string")`
unfoldable pub all_texts : Items → Bool
unfolding is_text
all_texts no_item = true
all_texts (item v items) = is_text v && all_texts items
