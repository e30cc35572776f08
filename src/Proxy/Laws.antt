-- ===== src/Proxy/Laws.antt =====
-- What the proxy answers.
use dgx_spark_llm_platform.Base.{
  Bool, true, false, ◌++◌, Option, none, some, ◌≡◌, ◌↔◌, ◌⊎◌, inl, inr, refl, arith, Bool-cases,
}
use dgx_spark_llm_platform.Base.Text.{Text, codes, text_eq, text_eq_sound, starts_with_sound}
use dgx_spark_llm_platform.Gate.{
  has, is_read, gate_decision, check_redirects, protected_pages, page_path,
}
use dgx_spark_llm_platform.Backend.{Backends, backend_for, on_rust}
use dgx_spark_llm_platform.Proxy.{
  Request, Answer, Reply, not_found, rewrite, to_login, page, own_route_handlers, is_internal,
  redirect_to_login, after_gate, proxy,
}

-- The request reaches neither of the two rewrites, and is not internal.
abbrev pub StaysHere : Backends → Request → Type 0
StaysHere b req =
    (is_internal req.pathname ≡ false)
    × ((has own_route_handlers req.pathname ≡ true)
        ⊎ (is_read req.method ≡ true) × (on_rust b req.pathname req.method ≡ false))

-- The visitor asks for a protected page by a document load, and has no session: no cookie, or one
-- that the backend answers 401 for.
abbrev pub IsLoggedOut : Request → Option Answer → Type 0
IsLoggedOut req answer =
    (is_read req.method ≡ true)
    × (req.has_rsc_header ≡ false)
    × (has protected_pages (page_path req.pathname) ≡ true)
    × ((req.has_session_cookie ≡ false) ⊎ ((a : Answer) × (answer ≡ some a) × (a.status ≡ 401)))

-- Whether a reply sends to the login page.
abbrev pub sends_to_login : Reply → Bool
sends_to_login (to_login _ _) = true
sends_to_login _ = false

abbrev pub serves_page : Reply → Bool
serves_page (page _) = true
serves_page _ = false

abbrev pub rewrites : Reply → Bool
rewrites (rewrite _ _) = true
rewrites _ = false

-- The login page is the reply exactly for a logged-out visitor of a protected page that is served
-- here; an answer that is missing, or any other status, does not log out.
pub proxy-sends_to_login_iff :
    (b : Backends) (req : Request) (answer : Option Answer) (nonce : Text)
    → (sends_to_login (proxy b req answer nonce) ≡ true)
      ↔ (StaysHere b req × IsLoggedOut req answer)
unfolding proxy after_gate gate_decision redirect_to_login check_redirects
proxy-sends_to_login_iff b req none nonce = (λ h. ground arith, λ h. ground arith)
proxy-sends_to_login_iff b req (some a) nonce = (λ h. grind arith, λ h. ground arith)

abbrev pub IsInternal : Text → Type 0
IsInternal path = (path ≡ codes "/internal") ⊎ ((rest : Text) × (path ≡ codes "/internal/" ++ rest))

is_internal_sound : (path : Text) → is_internal path ≡ true → IsInternal path
unfolding is_internal
is_internal_sound path h = elim (Bool-cases (text_eq path (codes "/internal"))) [
  | inl same ↦ inl (text_eq_sound path (codes "/internal") same)
  | inr other ↦ inr (starts_with_sound (codes "/internal/") path (rw other at h))
]

is_internal_complete : (path : Text) → IsInternal path → is_internal path ≡ true
unfolding is_internal
is_internal_complete path (inl e) = rw e (unfold text_eq in refl)
is_internal_complete path (inr (rest, e)) = rw e (unfold text_eq in refl)

not_found_only :
    (b : Backends) (req : Request) (answer : Option Answer) (nonce : Text)
    → (proxy b req answer nonce ≡ not_found) ↔ (is_internal req.pathname ≡ true)
unfolding proxy after_gate redirect_to_login
not_found_only b req none nonce = (λ h. ground arith, λ h. ground arith)
not_found_only b req (some a) nonce = (λ h. ground arith, λ h. ground arith)

-- The reply is a bare 404 exactly for `/internal` and the paths below it, whatever the method, the
-- cookies and the backends.
pub proxy-not_found_iff :
    (b : Backends) (req : Request) (answer : Option Answer) (nonce : Text)
    → (proxy b req answer nonce ≡ not_found) ↔ IsInternal req.pathname
proxy-not_found_iff b req answer nonce =
    let (to, from) = not_found_only b req answer nonce in
    (λ h. is_internal_sound req.pathname (to h), λ h. from (is_internal_complete req.pathname h))

-- A request is handed to a backend exactly when its path is neither internal nor one of the
-- streaming handlers', and its method is not a read or its path is on the Rust backend; it is then
-- sent with its path and query, to the backend of that path and method.
pub proxy-rewrites_iff :
    (b : Backends) (req : Request) (answer : Option Answer) (nonce : Text)
    → ((rewrites (proxy b req answer nonce) ≡ true)
        ↔ (is_internal req.pathname ≡ false)
          × (has own_route_handlers req.pathname ≡ false)
          × ((is_read req.method ≡ false) ⊎ (on_rust b req.pathname req.method ≡ true)))
      × ((rewrites (proxy b req answer nonce) ≡ true)
          → proxy b req answer nonce
            ≡ rewrite (req.pathname ++ req.search) (backend_for b req.pathname req.method))
unfolding proxy after_gate redirect_to_login
proxy-rewrites_iff b req answer nonce = ((λ h. ground arith, λ h. ground arith), λ h. ground arith)
