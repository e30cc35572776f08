-- ===== src/Proxy.antt =====
-- The proxy in front of every page: dgx-portal-frontend/proxy.ts.
pub mod Laws
mod Tests
use dgx_spark_llm_platform.Base.{
  ℕ, Bool, true, false, not, ◌&&◌, ◌||◌, List, [], ◌∷◌, ◌++◌, Option, none, some, any, ◌==◌,
  if◌then◌else◌,
}
use dgx_spark_llm_platform.Base.Text.{Text, codes, text_eq, starts_with}
use dgx_spark_llm_platform.Gate.{
  has, is_read, gate_decision, redirect, check, pass, check_redirects, Decision,
}
use dgx_spark_llm_platform.Backend.{Backends, backend_for, on_rust}

abbrev pub own_route_handlers : List Text
own_route_handlers =
    codes "/playground/chat"
    ∷ codes "/support/chat"
    ∷ codes "/admin/runner/stream"
    ∷ codes "/api/ocr/extract"
    ∷ []

-- What the proxy reads of a request.
pub record Request : Type 0 where
  pub method : Text
  pub pathname : Text
  pub search : Text
  pub has_session_cookie : Bool
  pub has_rsc_header : Bool
  pub forwarded_proto : Option Text

-- The answer of `/api/session`: its status and its `set-cookie` header.
pub record Answer : Type 0 where
  pub status : ℕ
  pub set_cookie : Option Text

pub data Reply : Type 0 where
  -- An empty 404.
  not_found : Reply
  -- The path and query, and the backend that they are sent to.
  rewrite : Text → Text → Reply
  -- A redirect to `/login`: the protocol, if it is replaced, and the cookie that is passed on.
  to_login : Option Text → Option Text → Reply
  -- The page, with its content security policy.
  page : Text → Reply

-- `pathname === "/internal" || pathname.startsWith("/internal/")`
unfoldable pub is_internal : Text → Bool
unfolding starts_with
is_internal pathname =
    text_eq pathname (codes "/internal") || starts_with (codes "/internal/") pathname

-- The protocol that `toLogin` sets.
unfoldable pub login_protocol : Option Text → Option Text
login_protocol none = none
login_protocol (some proto) =
    if text_eq proto (codes "https") || text_eq proto (codes "http")
    then some (proto ++ b':' ∷ [])
    else none

-- `if (setCookie)`: an empty text is passed over.
unfoldable pub login_cookie : Option Text → Option Text
login_cookie none = none
login_cookie (some []) = none
login_cookie (some (c ∷ s)) = some (c ∷ s)

unfoldable pub redirect_to_login : Request → Option Text → Reply
unfolding login_protocol login_cookie
redirect_to_login req cookie = to_login (login_protocol req.forwarded_proto) (login_cookie cookie)

unfoldable pub content_security_policy : Text → Text
content_security_policy nonce =
    codes "default-src 'self'; script-src 'self' 'nonce-"
    ++ nonce
    ++ codes
        "' 'strict-dynamic'; style-src 'self' 'unsafe-inline'; font-src 'self'; img-src 'self' data: blob:; media-src 'self' blob:; connect-src 'self'; frame-ancestors 'none'; base-uri 'self'; form-action 'self'"

-- The reply once the gate has decided. The answer is `none` where the fetch throws; it is asked for
-- only behind a cookie.
unfoldable pub after_gate : Decision → Request → Option Answer → Text → Reply
after_gate redirect req answer nonce = redirect_to_login req none
after_gate pass req answer nonce = page (content_security_policy nonce)
after_gate check req none nonce = page (content_security_policy nonce)
after_gate check req (some a) nonce =
    if check_redirects (some a.status)
    then redirect_to_login req a.set_cookie
    else page (content_security_policy nonce)

unfoldable pub proxy : Backends → Request → Option Answer → Text → Reply
proxy b req answer nonce =
    if is_internal req.pathname
    then not_found
    else if not (is_read req.method) && not (has own_route_handlers req.pathname)
    then rewrite (req.pathname ++ req.search) (backend_for b req.pathname req.method)
    else if on_rust b req.pathname req.method && not (has own_route_handlers req.pathname)
    then rewrite (req.pathname ++ req.search) (backend_for b req.pathname req.method)
    else after_gate
        (gate_decision (record {
          method = req.method;
          pathname = req.pathname;
          has_session_cookie = req.has_session_cookie;
          is_rsc_request = req.has_rsc_header;
        }))
        req answer nonce
