-- ===== src/Gate/Tests.antt =====
-- Runs of the gate, and its theorem at one input.
use dgx_spark_llm_platform.Base.{true, false, ◌≡◌, refl}
use dgx_spark_llm_platform.Base.Text.{codes, text_eq}
use dgx_spark_llm_platform.Gate.{
  GateInput, gate_decision, redirect, check, pass, is_read, has, page_path, strip_slashes,
}

abbrev visit : GateInput
visit = record {
  method = codes "GET";
  pathname = codes "/admin";
  has_session_cookie = false;
  is_rsc_request = false;
}

gate_decision_run :
    (gate_decision visit ≡ redirect)
    × (gate_decision (record visit { has_session_cookie = true }) ≡ check)
    × (gate_decision (record visit { method = codes "POST" }) ≡ pass)
    × (gate_decision (record visit { pathname = codes "/login" }) ≡ pass)
unfolding gate_decision is_read has page_path strip_slashes text_eq
gate_decision_run = (refl, refl, refl, refl)
