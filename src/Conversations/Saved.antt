-- ===== src/Conversations/Saved.antt =====
-- When a conversation counts as saved.
use dgx_spark_llm_platform.Base.{Option, none, some, ◌≡◌, refl, arith}
use dgx_spark_llm_platform.Base.Text.{text_eq}
use dgx_spark_llm_platform.Decisions.Value.{Json, get_field}
use dgx_spark_llm_platform.Http.{Response, auth_fetch, says_no, post_form_checked, refusal}
use dgx_spark_llm_platform.Conversations.{or_accepted, persist_conversation, remove_conversation}

or_accepted-says_no : (body : Option Json) → says_no (some (or_accepted body)) ≡ says_no body
unfolding or_accepted says_no get_field text_eq
or_accepted-says_no none = refl
or_accepted-says_no (some v) = refl

-- Whatever the server answers to it, an address included that does not answer, a conversation
-- counts as saved exactly when the same answer counts as a removal: the two verdicts, which are
-- written twice, agree.
pub persist-remove :
    (answer : Option Response) → persist_conversation answer ≡ remove_conversation answer
unfolding persist_conversation remove_conversation post_form_checked refusal auth_fetch
persist-remove none = refl
persist-remove (some res) = ground (arith, or_accepted-says_no res.body)
