-- ===== src/Http.antt =====
-- The requests of the pages: `authFetch`, `getJSON`, `sendJSON`, `postFormJSON`, `postFormChecked`,
-- `fetchCsrfToken` and `fetchPlaygroundData` of dgx-portal-frontend/lib/api.ts. What `fetch` gives
-- is an argument, with none for a network error.
mod Tests
pub mod Replies
use dgx_spark_llm_platform.Base.{
  ℕ, Bool, true, false, not, ◌&&◌, ◌||◌, List, [], ◌∷◌, ◌++◌, Option, none, some, leb, ◌==◌,
  if◌then◌else◌,
}
use dgx_spark_llm_platform.Base.Text.{Text, codes}
use dgx_spark_llm_platform.Decisions.Value.{
  Json, null, truth, number, string, array, object, no_field, Fields, get_field,
}

-- A response: its status, and its body where that is JSON.
pub record Response : Type 0 where
  pub status : ℕ
  pub body : Option Json

-- `res.ok`
abbrev pub is_ok : Response → Bool
is_ok res = leb 200 res.status && leb res.status 299

-- What a request throws.
pub data Thrown : Type 0 where
  network : Thrown
  -- Sent to the login page.
  logged_out : Thrown
  -- `ForbiddenError`, of the address.
  forbidden : Text → Thrown
  -- The server's message or the default one, and the server's code.
  failed : Option Text → Option Text → Thrown
  not_json : Thrown

pub data Outcome {ℓ} (A : Type ℓ) : Type ℓ where
  done : A → Outcome A
  thrown : Thrown → Outcome A

unfoldable pub auth_fetch : Option Response → Outcome Response
auth_fetch none = thrown network
auth_fetch (some res) = if res.status == 401 then thrown logged_out else done res

-- `res.json()`
unfoldable pub json_of : Option Json → Outcome Json
json_of none = thrown not_json
json_of (some v) = done v

-- `body?.error`, a text where the server gives one.
unfoldable pub field_of : Text → Option Json → Option Text
field_of name (some (object fields)) = text_of (get_field name fields)
  where
    text_of : Option Json → Option Text
    text_of (some (string s)) = some s
    text_of _ = none
field_of name _ = none

-- A text that is not empty: `v || …` and `if (v)`.
unfoldable pub filled : Option Text → Option Text
filled (some (c ∷ s)) = some (c ∷ s)
filled _ = none

unfoldable pub get_json : Text → Option Response → Outcome Json
unfolding auth_fetch json_of field_of filled
get_json url answer = elim (auth_fetch answer) [
  | thrown why ↦ thrown why
  | done res ↦
      if res.status == 403
      then thrown (forbidden url)
      else if not (is_ok res)
      then thrown (
          failed (filled (field_of (codes "error") res.body))
            (filled (field_of (codes "code") res.body)))
      else json_of res.body
]

-- `res.json().catch(() => ({}))`
unfoldable pub json_or_empty : Option Json → Json
json_or_empty none = object no_field
json_or_empty (some v) = v

unfoldable pub send_json : Text → Option Response → Outcome Json
unfolding auth_fetch json_or_empty
send_json url answer = elim (auth_fetch answer) [
  | thrown why ↦ thrown why
  | done res ↦ if res.status == 403 then thrown (forbidden url) else done (json_or_empty res.body)
]

unfoldable pub post_form_json : Option Response → Outcome Json
unfolding auth_fetch json_of
post_form_json answer = elim (auth_fetch answer) [
  | thrown why ↦ thrown why
  | done res ↦ json_of res.body
]

-- `fetchCsrfToken` and `fetchPlaygroundData`: the body of a success.
unfoldable pub fetch_data : Option Response → Outcome Json
unfolding auth_fetch json_of
fetch_data answer = elim (auth_fetch answer) [
  | thrown why ↦ thrown why
  | done res ↦ if not (is_ok res) then thrown (failed none none) else json_of res.body
]

pub record Verdict : Type 0 where
  pub ok : Bool
  pub error : Option Text
  pub code : Option Text

-- The sentence of a request that throws.
abbrev pub no_answer : Verdict
no_answer = record {
  ok = false;
  error = some (
      codes "Le serveur n'a pas r"
      ++ 233 ∷ codes "pondu "
      ++ 8212 ∷ codes " r"
      ++ 233 ∷ codes "essaie.");
  code = none;
}

unfoldable pub refusal : Option Json → Verdict
unfolding field_of
refusal body = record {
  ok = false;
  error = field_of (codes "error") body;
  code = field_of (codes "code") body;
}

-- `body && body.ok === false`
unfoldable pub says_no : Option Json → Bool
says_no (some (object fields)) = is_false (get_field (codes "ok") fields)
  where
    is_false : Option Json → Bool
    is_false (some (truth false)) = true
    is_false _ = false
says_no _ = false

unfoldable pub post_form_checked : Option Response → Verdict
unfolding auth_fetch refusal says_no
post_form_checked answer = elim (auth_fetch answer) [
  | thrown why ↦ no_answer
  | done res ↦
      if not (is_ok res)
      then refusal res.body
      else if says_no res.body
      then refusal res.body
      else record { ok = true; error = none; code = none }
]
