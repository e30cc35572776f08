-- ===== src/Http/Tests.antt =====
-- Runs of the requests, and their theorems at one input.
use dgx_spark_llm_platform.Base.{◌≤◌, true, false, none, some, ◌≡◌, ◌↔◌, refl}
use dgx_spark_llm_platform.Base.Text.{codes, text_eq}
use dgx_spark_llm_platform.Decisions.Value.{object, string, field, no_field, get_field}
use dgx_spark_llm_platform.Http.{
  Response, thrown, failed, auth_fetch, get_json, json_of, field_of, filled, post_form_checked,
  refusal, says_no,
}
use dgx_spark_llm_platform.Http.Replies.{IsReadAs, post_form_checked_iff, get_json-IsReadAs}

-- A page in place of the JSON that is expected.
abbrev page : Response
page = record { status = 200; body = none }

page_run : (post_form_checked (some page)).ok ≡ true
unfolding post_form_checked auth_fetch refusal says_no
page_run = refl

abbrev refused : Response
refused = record {
  status = 413;
  body = some (object (field (codes "error") (string (codes "trop gros")) no_field));
}

get_json_run :
    get_json (codes "/x") (some refused) ≡ thrown (failed (some (codes "trop gros")) none)
unfolding get_json auth_fetch json_of field_of filled get_field text_eq
get_json_run = refl

post_form_checked_iff_example : ((post_form_checked (some page)).ok ≡ true) ↔ (
    (res : Response) × (some page ≡ some res)
    × (200 ≤ res.status)
    × (res.status ≤ 299)
    × (says_no res.body ≡ false))
post_form_checked_iff_example = post_form_checked_iff (some page)

get_json-IsReadAs_example :
    IsReadAs (codes "/x") (some refused) (get_json (codes "/x") (some refused))
get_json-IsReadAs_example = get_json-IsReadAs (codes "/x") (some refused)
