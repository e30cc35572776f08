-- ===== src/Http/Replies.antt =====
-- When a form counts as accepted, and when a request throws.
use dgx_spark_llm_platform.Base.{◌≤◌, true, false, Option, none, some, ◌≡◌, ◌↔◌, refl, arith}
use mathlib.Core.Path.{subst}
use dgx_spark_llm_platform.Base.Text.{Text, codes}
use dgx_spark_llm_platform.Decisions.Value.{Json}
use dgx_spark_llm_platform.Http.{
  Response, Outcome, done, thrown, network, failed, is_ok, field_of, filled, logged_out, forbidden,
  not_json, auth_fetch, get_json, post_form_checked, says_no, refusal, json_of,
}

-- A form is taken for accepted exactly when the server answers with a success whose body does not
-- say `ok: false`; a body that is not JSON is among these.
pub post_form_checked_iff :
    (answer : Option Response)
    → ((post_form_checked answer).ok ≡ true) ↔ (
        (res : Response) × (answer ≡ some res)
        × (200 ≤ res.status)
        × (res.status ≤ 299)
        × (says_no res.body ≡ false))
unfolding post_form_checked auth_fetch refusal
post_form_checked_iff none = (λ h. ground arith, λ h. ground arith)
post_form_checked_iff (some res) = (
  λ h. (res, refl, ground arith, ground arith, ground arith),
  λ (r, e, low, high, agrees).
      let same : res ≡ r = ground arith in accepted (rw same low) (rw same high) (rw same agrees),
)
  where
    accepted :
        200 ≤ res.status
        → res.status ≤ 299
        → says_no res.body ≡ false
        → (post_form_checked (some res)).ok ≡ true
    accepted low high agrees = ground arith

-- How reading a response as JSON ends.
abbrev pub IsReplyReadAs : Text → Response → Outcome Json → Type 0
IsReplyReadAs url res outcome =
    ((outcome ≡ thrown logged_out) ↔ (res.status ≡ 401))
    × ((outcome ≡ thrown (forbidden url)) ↔ (res.status ≡ 403))
    × ((message code : Option Text)
        → (outcome ≡ thrown (failed message code)) ↔ (
            (is_ok res ≡ false)
            × (¬ res.status ≡ 401)
            × (¬ res.status ≡ 403)
            × (message ≡ filled (field_of (codes "error") res.body))
            × (code ≡ filled (field_of (codes "code") res.body))))
    × ((outcome ≡ thrown not_json) ↔ (200 ≤ res.status) × (res.status ≤ 299) × (res.body ≡ none))
    × ((v : Json)
        → (outcome ≡ done v) ↔ (200 ≤ res.status) × (res.status ≤ 299) × (res.body ≡ some v))

get_json-IsReplyReadAs :
    (url : Text) (res : Response) → IsReplyReadAs url res (get_json url (some res))
unfolding get_json auth_fetch json_of
get_json-IsReplyReadAs url res = by_body res.body refl
  where
    by_body :
        (body : Option Json) → res.body ≡ body → IsReplyReadAs url res (get_json url (some res))
    by_body none e = (
      (λ h. ground arith, λ h. ground arith),
      (λ h. ground arith, λ h. ground arith),
      λ m k. (λ h. ground arith, λ h. ground arith),
      (λ h. ground arith, λ h. ground arith),
      λ v. (λ h. ground arith, λ h. ground arith),
    )
    by_body (some w) e = (
      (λ h. ground arith, λ h. ground arith),
      (λ h. ground arith, λ h. ground arith),
      λ m k. (λ h. ground arith, λ h. ground arith),
      (λ h. ground arith, λ h. ground arith),
      λ v. (λ h. ground arith, λ h. ground arith),
    )

get_json-answered : (url : Text) (res : Response) → ¬ get_json url (some res) ≡ thrown network
unfolding get_json auth_fetch json_of
get_json-answered url res h = by_body res.body refl h
  where
    by_body : (body : Option Json) → res.body ≡ body → ¬ get_json url (some res) ≡ thrown network
    by_body none e = λ k. ground arith
    by_body (some w) e = λ k. ground arith

-- How reading as JSON ends, over every answer of the network.
abbrev pub IsReadAs : Text → Option Response → Outcome Json → Type 0
IsReadAs url answer outcome =
    ((outcome ≡ thrown network) ↔ (answer ≡ none))
    × ((res : Response) → answer ≡ some res → IsReplyReadAs url res outcome)

-- A network error, and nothing else, throws one; and of an answer that arrives the status and the
-- body decide: 401 is a session that is over, 403 a forbidden page, any other status that is not a
-- success throws the server's message and code where they are texts that are not empty, a success
-- that is not JSON throws, and the result of any other success is its body.
pub get_json-IsReadAs :
    (url : Text) (answer : Option Response) → IsReadAs url answer (get_json url answer)
unfolding get_json auth_fetch
get_json-IsReadAs url none = ((λ h. refl, λ h. refl), λ res e. ground arith)
get_json-IsReadAs url (some res) = (
  (λ h. absurd (get_json-answered url res h), λ h. absurd (ground arith)),
  λ r e.
      let same : res ≡ r = ground arith in
      subst (λ s. IsReplyReadAs url s (get_json url (some res))) same
        (get_json-IsReplyReadAs url res),
)
