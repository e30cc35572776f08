-- ===== src/Gate.antt =====
-- The login gate of the pages: dgx-portal-frontend/lib/session-gate.ts.
pub mod Laws
mod Tests
use dgx_spark_llm_platform.Base.{
  ℕ, Bool, true, false, not, ◌&&◌, ◌||◌, List, [], ◌∷◌, Option, none, some, any, all, length, ltb,
  ◌==◌, if◌then◌else◌,
}
use dgx_spark_llm_platform.Base.Text.{Text, codes, text_eq}

abbrev pub slash : ℕ
slash = b'/'

abbrev pub protected_pages : List Text
protected_pages =
    codes "/"
    ∷ codes "/admin"
    ∷ codes "/decisions"
    ∷ codes "/image"
    ∷ codes "/memory"
    ∷ codes "/ocr"
    ∷ codes "/playground"
    ∷ codes "/ranking"
    ∷ codes "/request"
    ∷ codes "/search"
    ∷ codes "/support"
    ∷ codes "/users"
    ∷ codes "/video"
    ∷ codes "/voice"
    ∷ []

pub record GateInput : Type 0 where
  pub method : Text
  pub pathname : Text
  pub has_session_cookie : Bool
  pub is_rsc_request : Bool

pub data Decision : Type 0 where
  redirect check pass : Decision

-- `set.has(s)`
unfoldable pub has : List Text → Text → Bool
has pages s = any (λ p. text_eq s p) pages

-- `.replace(/\/+$/, "")`
unfoldable pub strip_slashes : Text → Text
strip_slashes [] = []
strip_slashes (c ∷ s) =
    let rest = strip_slashes s in if all (λ d. d == slash) (c ∷ s) then [] else c ∷ rest

-- `method === "GET" || method === "HEAD"`
unfoldable pub is_read : Text → Bool
is_read method = text_eq method (codes "GET") || text_eq method (codes "HEAD")

-- The path that is looked up among the pages.
unfoldable pub page_path : Text → Text
page_path pathname = if ltb 1 (length pathname) then strip_slashes pathname else pathname

unfoldable pub gate_decision : GateInput → Decision
gate_decision i =
    if not (is_read i.method)
    then pass
    else if i.is_rsc_request
    then pass
    else if not (has protected_pages (page_path i.pathname))
    then pass
    else if i.has_session_cookie
    then check
    else redirect

-- `status === 401`, where `none` is `null`.
unfoldable pub check_redirects : Option ℕ → Bool
check_redirects none = false
check_redirects (some status) = status == 401
