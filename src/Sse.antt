-- ===== src/Sse.antt =====
-- The relay of streamed answers: dgx-portal-frontend/lib/sseProxy.ts. What the session check and
-- the backend answer are arguments, with none where the fetch throws or times out. The time-outs
-- themselves are the callers' of those fetches.
mod Tests
pub mod Order
use dgx_spark_llm_platform.Base.{
  ℕ, ◌*◌, Bool, true, false, not, ◌&&◌, ◌||◌, List, [], ◌∷◌, ◌++◌, Option, none, some, length, ltb,
  ◌==◌, if◌then◌else◌,
}
use dgx_spark_llm_platform.Base.Text.{Text, codes}
use dgx_spark_llm_platform.Backend.{Backends, backend_for}

-- `MAX_BODY_BYTES`
abbrev pub max_body_bytes : ℕ
max_body_bytes = 20 * 1024 * 1024

-- What the relay reads of a request; the announced length is none where the header is not a finite
-- number, and 0 where it is missing.
pub record Incoming : Type 0 where
  pub content_length : Option ℕ
  pub cookie : Text
  pub content_type : Option Text
  pub csrf_token : Text
  pub body : List ℕ

pub record Upstream : Type 0 where
  pub status : ℕ
  pub content_type : Option Text
  pub body : Option (List ℕ)

-- What the relay does with the rest of the world, in order.
pub data Effect : Type 0 where
  -- The session check: its address, and the cookie sent.
  asks_session : Text → Text → Effect
  reads_body : Effect
  -- The request to the backend: its address, content type, token, cookie and body.
  sends : Text → Text → Text → Text → List ℕ → Effect

-- The sentences of the error frames.
pub data Refusal : Type 0 where
  too_large : Refusal
  expired : Refusal
  silent : Refusal

pub data Answered : Type 0 where
  -- An error frame of that status.
  refused : ℕ → Refusal → Answered
  -- The backend's answer: its status, its content type, and its body behind the idle time-out.
  relayed : ℕ → Text → Option (List ℕ) → Answered

-- `a || b` on a header
unfoldable pub header_or : Option Text → Text → Text
header_or none fallback = fallback
header_or (some []) fallback = fallback
header_or (some (c ∷ s)) fallback = c ∷ s

unfoldable pub is_too_long : Option ℕ → Bool
is_too_long none = false
is_too_long (some n) = ltb max_body_bytes n

-- `check && (check.status === 401 || check.status === 403)`
unfoldable pub is_denied : Option ℕ → Bool
is_denied none = false
is_denied (some status) = (status == 401) || (status == 403)

-- The answer once the backend has been asked.
unfoldable pub relay : Option Upstream → Answered
unfolding header_or
relay none = refused 503 silent
relay (some up) = relayed up.status (header_or up.content_type (codes "text/event-stream")) up.body

-- What `proxySSE` does behind the session check.
unfoldable pub after_check : Backends → Incoming → Text → Option Upstream → List Effect × Answered
unfolding header_or
after_check b req path up =
    if ltb max_body_bytes (length req.body) then (reads_body ∷ [], refused 413 too_large) else (
      reads_body
          ∷ sends (backend_for b path (codes "POST") ++ path)
              (header_or req.content_type (codes "application/json")) req.csrf_token req.cookie
              req.body
          ∷ [],
      relay up,
    )

abbrev whoami : Text
whoami = codes "/api/whoami"

unfoldable pub proxy_sse :
    Backends → Incoming → Text → Option ℕ → Option Upstream → List Effect × Answered
unfolding is_too_long is_denied after_check
proxy_sse b req path check up =
    if is_too_long req.content_length
    then ([], refused 413 too_large)
    else let asked = asks_session (backend_for b whoami (codes "GET") ++ whoami) req.cookie in
      let (effects, answered) = after_check b req path up in
      if is_denied check then (asked ∷ [], refused 401 expired) else (asked ∷ effects, answered)

-- `proxySSEGet`: the address and the cookie it sends, and its answer.
unfoldable pub proxy_sse_get : Backends → Incoming → Text → Option Upstream → Text × Text × Answered
unfolding relay
proxy_sse_get b req path up = (backend_for b path (codes "GET") ++ path, req.cookie, relay up)

-- A stream behind `withIdleTimeout`: what each of its reads gives.
pub data Read : Type 0 where
  chunk : List ℕ → Read
  ended : Read
  failed : Read
  timed_out : Read

pub data Outcome : Type 0 where
  closed : Outcome
  errored : Outcome
  still_open : Outcome

-- The chunks that are passed on, and how the stream stands after the reads.
unfoldable pub pull_all : List Read → List (List ℕ) × Outcome
pull_all [] = ([], still_open)
pull_all (chunk bytes ∷ reads) = let (passed, outcome) = pull_all reads in (bytes ∷ passed, outcome)
pull_all (ended ∷ reads) = ([], closed)
pull_all (failed ∷ reads) = ([], errored)
pull_all (timed_out ∷ reads) = ([], errored)
