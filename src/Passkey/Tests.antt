-- ===== src/Passkey/Tests.antt =====
-- Runs of base64url, and its theorem at one input.
use dgx_spark_llm_platform.Base.{[], ◌∷◌, none, some, All, ◌≡◌, ◌≢◌, refl, arith}
use dgx_spark_llm_platform.Base.Text.{codes}
use dgx_spark_llm_platform.Passkey.{
  Bytes, padding, sextets, char_of, missing, btoa, strip_all, bytes_from_base64url,
  bytes_to_base64url, prepare_request, attestation, attestation_json, credential_to_json,
  answer_json, transports_of, atob, decoded, values, value_of, cons_value, bytes_of, strip_padding,
  strip_one, without_space, is_ascii_space, decode_all, or_none,
}
use dgx_spark_llm_platform.Passkey.RoundTrip.{bytes_from_base64url-to}

abbrev bytes : Bytes
bytes = 251 ∷ 255 ∷ 0 ∷ 7 ∷ []

bytes_to_base64url_run : bytes_to_base64url bytes ≡ codes "-_8ABw"
unfolding bytes_to_base64url btoa sextets char_of missing strip_all
bytes_to_base64url_run = refl

prepare_request_run :
    prepare_request (codes "-_8ABw") (some (codes "AA" ∷ [])) ≡ some (bytes, (0 ∷ []) ∷ [])
unfolding prepare_request bytes_from_base64url atob decoded values value_of cons_value bytes_of
    strip_padding strip_one without_space is_ascii_space missing decode_all or_none
prepare_request_run = refl

bytes_from_base64url-to_example :
    (bytes_from_base64url (bytes_to_base64url bytes) ≡ some bytes)
    × All (λ c. (c ≢ b'+') × (c ≢ b'/') × (c ≢ padding)) (bytes_to_base64url bytes)
bytes_from_base64url-to_example = bytes_from_base64url-to bytes (ground arith)

credential_run :
    (credential_to_json (record {
      id = codes "k";
      raw_id = bytes;
      client_data = [];
      answer = attestation [] [];
    })).answer
    ≡ attestation_json [] none
unfolding credential_to_json answer_json transports_of bytes_to_base64url btoa sextets missing
    strip_all
credential_run = refl
