-- ===== src/Sse/Order.antt =====
-- The order of the relay's guards.
use dgx_spark_llm_platform.Base.{
  ℕ, ◌≤◌, ◌<◌, Bool, true, false, List, [], ◌∷◌, Option, none, some, length, ◌≡◌, ◌↔◌, ◌⊎◌, arith,
  if◌then◌else◌,
}
use dgx_spark_llm_platform.Base.Text.{Text}
use dgx_spark_llm_platform.Backend.{Backends}
use dgx_spark_llm_platform.Sse.{
  Incoming, Upstream, Effect, reads_body, sends, refused, too_large, expired, silent,
  max_body_bytes, is_too_long, is_denied, relay, after_check, proxy_sse,
}

abbrev pub is_read_of : Effect → Bool
is_read_of reads_body = true
is_read_of _ = false

abbrev pub is_sent : Effect → Bool
is_sent (sends _ _ _ _ _) = true
is_sent _ = false

-- The effects of a run: whether the body is read, and whether the backend is asked.
abbrev pub reads : List Effect → Bool
reads [] = false
reads (e ∷ es) = let rest = reads es in if is_read_of e then true else rest

abbrev pub asks_backend : List Effect → Bool
asks_backend [] = false
asks_backend (e ∷ es) = let rest = asks_backend es in if is_sent e then true else rest

-- A request that passes the checks which come before its body is read.
abbrev pub Admitted : Incoming → Option ℕ → Type 0
Admitted req check = (is_too_long req.content_length ≡ false) × (is_denied check ≡ false)

-- The body is read exactly when the announced length is within the bound and the session is not
-- denied, and it is sent to the backend exactly when, besides, its real length is within the bound.
pub proxy_sse_order :
    (b : Backends) (req : Incoming) (path : Text) (check : Option ℕ) (up : Option Upstream)
    → let (effects, answered) = proxy_sse b req path check up in
      ((reads effects ≡ true) ↔ Admitted req check)
      × ((asks_backend effects ≡ true) ↔ Admitted req check × (length req.body ≤ max_body_bytes))
unfolding proxy_sse after_check
proxy_sse_order b req path check up =
    ((λ h. ground arith, λ h. ground arith), (λ h. ground arith, λ h. ground arith))

-- Every answer of the relay is one of these, by the first guard that fails: 413 for an announced
-- length over the bound, 401 for a denied session, 413 for a body over the bound, 503 for a backend
-- that does not answer, and otherwise the backend's own status and body.
pub proxy_sse-status :
    (b : Backends) (req : Incoming) (path : Text) (check : Option ℕ) (up : Option Upstream)
    → let answered = (proxy_sse b req path check up).1 in
      ((answered ≡ refused 413 too_large)
        ↔ (is_too_long req.content_length ≡ true)
          ⊎ (Admitted req check × (max_body_bytes < length req.body)))
      × ((answered ≡ refused 401 expired)
          ↔ (is_too_long req.content_length ≡ false) × (is_denied check ≡ true))
      × ((answered ≡ refused 503 silent)
          ↔ Admitted req check × (length req.body ≤ max_body_bytes) × (up ≡ none))
unfolding proxy_sse after_check relay
proxy_sse-status b req path check none = (
  (λ h. ground arith, λ h. ground arith),
  (λ h. ground arith, λ h. ground arith),
  (λ h. ground arith, λ h. ground arith),
)
proxy_sse-status b req path check (some u) = (
  (λ h. ground arith, λ h. ground arith),
  (λ h. ground arith, λ h. ground arith),
  (λ h. ground arith, λ h. ground arith),
)
