-- ===== src/Passkey.antt =====
-- The bytes of a passkey: dgx-portal-frontend/lib/webauthn.ts. `btoa` and `atob` are the browser's
-- base64, on texts of bytes; atob is none where it throws. What the browser's credential store
-- answers is a record of byte strings.
mod Tests
pub mod Sextets
pub mod RoundTrip
use dgx_spark_llm_platform.Base.{
  ℕ, zero, suc, ◌+◌, ◌-◌, ◌*◌, ◌/◌, ◌%◌, Bool, true, false, not, ◌&&◌, ◌||◌, List, [], ◌∷◌, ◌++◌,
  map, Option, none, some, length, replicate, ltb, leb, ◌==◌, if◌then◌else◌,
}
use dgx_spark_llm_platform.Base.Text.{Text}

abbrev pub Bytes : Type 0
Bytes = List ℕ

abbrev pub padding : ℕ
padding = b'='

-- Three bytes as four numbers below 64; what is left gives two or three.
unfoldable pub sextets : Bytes → List ℕ
sextets [] = []
sextets (a ∷ []) = a / 4 ∷ (a % 4) * 16 ∷ []
sextets (a ∷ b ∷ []) = a / 4 ∷ ((a % 4) * 16 + b / 16) ∷ (b % 16) * 4 ∷ []
sextets (a ∷ b ∷ c ∷ s) =
    a / 4 ∷ ((a % 4) * 16 + b / 16) ∷ ((b % 16) * 4 + c / 64) ∷ c % 64 ∷ sextets s

-- The alphabet of base64.
unfoldable pub char_of : ℕ → ℕ
char_of n =
    if ltb n 26
    then 65 + n
    else if ltb n 52
    then 71 + n
    else if ltb n 62
    then n - 4
    else if n == 62
    then b'+'
    else b'/'

-- `(4 - (s.length % 4)) % 4`
unfoldable pub missing : ℕ → ℕ
missing n = (4 - n % 4) % 4

unfoldable pub btoa : Bytes → Text
unfolding sextets char_of missing
btoa bytes = let s = map char_of (sextets bytes) in s ++ replicate (missing (length s)) padding

unfoldable pub value_of : ℕ → Option ℕ
value_of c =
    if leb 65 c && leb c 90
    then some (c - 65)
    else if leb 97 c && leb c 122
    then some (c - 71)
    else if leb 48 c && leb c 57
    then some (c + 4)
    else if c == b'+'
    then some 62
    else if c == b'/'
    then some 63
    else none

unfoldable pub cons_value : Option ℕ → Option (List ℕ) → Option (List ℕ)
cons_value (some v) (some vs) = some (v ∷ vs)
cons_value _ _ = none

unfoldable pub values : Text → Option (List ℕ)
unfolding value_of cons_value
values [] = some []
values (c ∷ s) = cons_value (value_of c) (values s)

unfoldable pub bytes_of : List ℕ → Option Bytes
bytes_of [] = some []
bytes_of (p ∷ []) = none
bytes_of (p ∷ q ∷ []) = some ((p * 4 + q / 16) ∷ [])
bytes_of (p ∷ q ∷ r ∷ []) = some ((p * 4 + q / 16) ∷ ((q % 16) * 16 + r / 4) ∷ [])
bytes_of (p ∷ q ∷ r ∷ t ∷ s) =
    put (p * 4 + q / 16) ((q % 16) * 16 + r / 4) ((r % 4) * 64 + t) (bytes_of s)
  where
    put : ℕ → ℕ → ℕ → Option Bytes → Option Bytes
    put a b c none = none
    put a b c (some bytes) = some (a ∷ b ∷ c ∷ bytes)

-- The white space that `atob` passes over.
unfoldable pub is_ascii_space : ℕ → Bool
is_ascii_space c = (c == 9) || (c == 10) || (c == 12) || (c == 13) || (c == 32)

unfoldable pub without_space : Text → Text
unfolding is_ascii_space
without_space [] = []
without_space (c ∷ s) = let rest = without_space s in if is_ascii_space c then rest else c ∷ rest

-- One padding character less at the end.
unfoldable pub strip_one : Text → Text
strip_one [] = []
strip_one (c ∷ []) = if c == padding then [] else c ∷ []
strip_one (c ∷ d ∷ s) = c ∷ strip_one (d ∷ s)

unfoldable pub strip_padding : Text → Text
unfolding strip_one
strip_padding s = if length s % 4 == 0 then strip_one (strip_one s) else s

unfoldable pub decoded : Option (List ℕ) → Option Bytes
unfolding bytes_of
decoded none = none
decoded (some vs) = bytes_of vs

unfoldable pub atob : Text → Option Bytes
unfolding decoded values strip_padding without_space
atob s = decoded (values (strip_padding (without_space s)))

-- `.replace(/a/g, "b")` on single characters
abbrev pub swap : ℕ → ℕ → Text → Text
swap a b = map (λ c. if c == a then b else c)

-- `.replace(/=+$/, "")`
unfoldable pub strip_all : Text → Text
strip_all [] = []
strip_all (c ∷ s) = keep c (strip_all s)
  where
    keep : ℕ → Text → Text
    keep c [] = if c == padding then [] else c ∷ []
    keep c (d ∷ s) = c ∷ d ∷ s

unfoldable pub bytes_from_base64url : Text → Option Bytes
unfolding atob missing
bytes_from_base64url s =
    atob (swap b'_' b'/' (swap b'-' b'+' (s ++ replicate (missing (length s)) padding)))

unfoldable pub bytes_to_base64url : Bytes → Text
unfolding btoa strip_all
bytes_to_base64url bytes = strip_all (swap b'/' b'_' (swap b'+' b'-' (btoa bytes)))

-- The options of the server, as far as they are converted: the challenge, the user's identifier
-- and the identifiers of keys, each in base64url.
pub record Options (A : Type 0) : Type 0 where
  pub challenge : A
  pub user_id : A
  pub keys : List A

-- `pk.excludeCredentials ?? []`
unfoldable pub or_none : Option (List Text) → List Text
or_none none = []
or_none (some keys) = keys

unfoldable pub decode_all : List Text → Option (List Bytes)
unfolding bytes_from_base64url
decode_all [] = some []
decode_all (key ∷ keys) = cons (bytes_from_base64url key) (decode_all keys)
  where
    cons : Option Bytes → Option (List Bytes) → Option (List Bytes)
    cons (some k) (some ks) = some (k ∷ ks)
    cons _ _ = none

-- `prepareCreationOptions`: none where a text is not base64url.
unfoldable pub prepare_creation : Text → Text → Option (List Text) → Option (Options Bytes)
unfolding bytes_from_base64url decode_all or_none
prepare_creation challenge user_id keys =
    all_three (bytes_from_base64url challenge) (bytes_from_base64url user_id)
      (decode_all (or_none keys))
  where
    all_three : Option Bytes → Option Bytes → Option (List Bytes) → Option (Options Bytes)
    all_three (some c) (some u) (some ks) = some (record { challenge = c; user_id = u; keys = ks })
    all_three _ _ _ = none

-- `prepareRequestOptions`
unfoldable pub prepare_request : Text → Option (List Text) → Option (Bytes × List Bytes)
unfolding bytes_from_base64url decode_all or_none
prepare_request challenge keys = both (bytes_from_base64url challenge) (decode_all (or_none keys))
  where
    both : Option Bytes → Option (List Bytes) → Option (Bytes × List Bytes)
    both (some c) (some ks) = some (c, ks)
    both _ _ = none

-- What the browser answers: to a creation, with the transports it names, or to a request.
pub data Answer : Type 0 where
  attestation : Bytes → List Text → Answer
  assertion : Bytes → Bytes → Option Bytes → Answer

pub record Credential : Type 0 where
  pub id : Text
  pub raw_id : Bytes
  pub client_data : Bytes
  pub answer : Answer

-- The part of the JSON that depends on the answer; a `userHandle` that is null is none.
pub data AnswerJson : Type 0 where
  attestation_json : Text → Option (List Text) → AnswerJson
  assertion_json : Text → Text → Option Text → AnswerJson

pub record CredentialJson : Type 0 where
  pub id : Text
  pub raw_id : Text
  pub client_data : Text
  pub answer : AnswerJson

-- `if (transports && transports.length)`
unfoldable pub transports_of : List Text → Option (List Text)
transports_of [] = none
transports_of (t ∷ ts) = some (t ∷ ts)

unfoldable pub handle_of : Option Bytes → Option Text
unfolding bytes_to_base64url
handle_of none = none
handle_of (some handle) = some (bytes_to_base64url handle)

unfoldable pub answer_json : Answer → AnswerJson
unfolding bytes_to_base64url transports_of handle_of
answer_json (attestation object transports) =
    attestation_json (bytes_to_base64url object) (transports_of transports)
answer_json (assertion data_bytes signature handle) =
    assertion_json (bytes_to_base64url data_bytes) (bytes_to_base64url signature) (handle_of handle)

-- `credentialToJSON`
unfoldable pub credential_to_json : Credential → CredentialJson
unfolding answer_json
credential_to_json cred = record {
  id = cred.id;
  raw_id = bytes_to_base64url cred.raw_id;
  client_data = bytes_to_base64url cred.client_data;
  answer = answer_json cred.answer;
}
