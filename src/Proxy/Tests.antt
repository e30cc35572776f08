-- ===== src/Proxy/Tests.antt =====
-- The proxy's theorems at one input, and a run.
use dgx_spark_llm_platform.Base.{◌++◌, true, false, [], none, some, ◌≡◌, ◌↔◌, ◌⊎◌, refl}
use dgx_spark_llm_platform.Base.Text.{codes, text_eq}
use dgx_spark_llm_platform.Gate.{
  is_read, has, gate_decision, page_path, strip_slashes, check_redirects,
}
use dgx_spark_llm_platform.Backend.{Backends, backend_for, on_rust}
use dgx_spark_llm_platform.Proxy.{
  Request, Answer, to_login, rewrite, proxy, own_route_handlers, is_internal, after_gate,
  redirect_to_login,
}
use dgx_spark_llm_platform.Proxy.Laws.{
  StaysHere, IsLoggedOut, sends_to_login, rewrites, proxy-sends_to_login_iff, proxy-rewrites_iff,
}

abbrev backends : Backends
backends = record { flask_url = codes "http://flask"; rust_url = []; prefixes = [] }

abbrev visit : Request
visit = record {
  method = codes "GET";
  pathname = codes "/admin";
  search = codes "?tab=users";
  has_session_cookie = true;
  has_rsc_header = false;
  forwarded_proto = some (codes "https");
}

abbrev expired : Answer
expired = record { status = 401; set_cookie = some (codes "session=") }

proxy_run :
    proxy backends visit (some expired) []
    ≡ to_login (some (codes "https:")) (some (codes "session="))
unfolding proxy is_internal is_read has on_rust backend_for gate_decision page_path strip_slashes
    check_redirects after_gate redirect_to_login text_eq
proxy_run = refl

proxy-sends_to_login_iff_example :
    (sends_to_login (proxy backends visit (some expired) []) ≡ true)
    ↔ (StaysHere backends visit × IsLoggedOut visit (some expired))
proxy-sends_to_login_iff_example = proxy-sends_to_login_iff backends visit (some expired) []

proxy-rewrites_iff_example :
    ((rewrites (proxy backends visit none []) ≡ true)
      ↔ (is_internal visit.pathname ≡ false)
        × (has own_route_handlers visit.pathname ≡ false)
        × ((is_read visit.method ≡ false) ⊎ (on_rust backends visit.pathname visit.method ≡ true)))
    × ((rewrites (proxy backends visit none []) ≡ true)
        → proxy backends visit none []
          ≡ rewrite
              (visit.pathname ++ visit.search)
              (backend_for backends visit.pathname visit.method))
proxy-rewrites_iff_example = proxy-rewrites_iff backends visit none []
