-- ===== src/Sse/Tests.antt =====
-- Runs of the relay, and its theorems at one input.
use dgx_spark_llm_platform.Base.{◌≤◌, true, [], ◌∷◌, none, some, length, ◌≡◌, ◌↔◌, refl}
use dgx_spark_llm_platform.Base.Text.{codes}
use dgx_spark_llm_platform.Backend.{Backends}
use dgx_spark_llm_platform.Sse.{
  Incoming, Upstream, refused, expired, max_body_bytes, is_too_long, is_denied, after_check,
  proxy_sse, pull_all, chunk, timed_out, errored,
}
use dgx_spark_llm_platform.Sse.Order.{Admitted, reads, asks_backend, proxy_sse_order}

abbrev backends : Backends
backends = record { flask_url = codes "http://b"; rust_url = []; prefixes = [] }

abbrev request : Incoming
request = record {
  content_length = some 3;
  cookie = codes "session=1";
  content_type = none;
  csrf_token = codes "t";
  body = codes "abc";
}

abbrev answer : Upstream
answer = record { status = 200; content_type = none; body = some (codes "data") }

denied_run : (proxy_sse backends request (codes "/x") (some 401) none).1 ≡ refused 401 expired
unfolding proxy_sse is_too_long is_denied after_check
denied_run = refl

proxy_sse_order_example :
    let (effects, answered) = proxy_sse backends request (codes "/x") (some 200) (some answer) in
    ((reads effects ≡ true) ↔ Admitted request (some 200))
    × ((asks_backend effects ≡ true)
        ↔ Admitted request (some 200) × (length request.body ≤ max_body_bytes))
proxy_sse_order_example = proxy_sse_order backends request (codes "/x") (some 200) (some answer)

pull_all_run : pull_all (chunk (codes "a") ∷ timed_out ∷ []) ≡ (codes "a" ∷ [], errored)
unfolding pull_all
pull_all_run = refl
