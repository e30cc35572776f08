-- ===== src/Stream.antt =====
-- The streams that the pages read: `readSSE`, `streamChat`, `streamOcr` and `streamSupportChat` of
-- dgx-portal-frontend/lib/api.ts. `JSON.parse` and the reading of a value as a packet are one
-- parameter, and a chunk is its decoded text.
mod Tests
pub mod Chunks
pub mod Frames
use dgx_spark_llm_platform.Base.{
  ℕ, Bool, true, false, not, ◌&&◌, ◌||◌, List, [], ◌∷◌, ◌++◌, Option, none, some, drop, ◌==◌,
  if◌then◌else◌,
}
use dgx_spark_llm_platform.Base.Text.{Text, codes, text_eq, split, trim, newline, starts_with}
use dgx_spark_llm_platform.Decisions.Value.{Json}

-- A character in front of the first part, or of what is left where there is no part.
unfoldable pub push_first : ℕ → List Text × Text → List Text × Text
push_first c ([], rest) = ([], c ∷ rest)
push_first c (p ∷ parts, rest) = ((c ∷ p) ∷ parts, rest)

unfoldable pub new_part : List Text × Text → List Text × Text
new_part (parts, rest) = ([] ∷ parts, rest)

-- `buffer.split("\n\n")`, and the last part, which `parts.pop()` takes off.
unfoldable pub cut : Text → List Text × Text
unfolding push_first new_part
cut [] = ([], [])
cut (c ∷ []) = ([], c ∷ [])
cut (c ∷ d ∷ s) =
    let behind = cut s in
    let next = cut (d ∷ s) in
    if (c == newline) && (d == newline) then new_part behind else push_first c next

-- The first line that starts with `data:`.
unfoldable pub find_data : List Text → Option Text
unfolding starts_with
find_data [] = none
find_data (l ∷ ls) =
    let rest = find_data ls in if starts_with (codes "data:") l then some l else rest

module _ {E : Type 0} (parse : Text → Option E) where
  -- What one packet line gives: the mark of the end and what does not parse give no event.
  unfoldable pub of_line : Option Text → List E
  of_line none = []
  of_line (some line) =
      let payload = trim (drop 5 line) in
      if text_eq payload (codes "[DONE]") then [] else listed (parse payload)
    where
      listed : Option E → List E
      listed none = []
      listed (some e) = e ∷ []

  unfoldable pub of_part : Text → List E
  unfolding of_line find_data
  of_part part = of_line (find_data (split newline part))

  unfoldable pub of_parts : List Text → List E
  unfolding of_part
  of_parts [] = []
  of_parts (part ∷ parts) = of_part part ++ of_parts parts

  -- The loop over the chunks, with the buffer: the events, in order.
  unfoldable pub read_chunks : Text → List Text → List E
  unfolding of_parts cut
  read_chunks buffer [] = []
  read_chunks buffer (chunk ∷ chunks) =
      let (parts, rest) = cut (buffer ++ chunk) in of_parts parts ++ read_chunks rest chunks

  -- `readSSE`: none where it throws, which is on a status that is not a success; a missing body
  -- gives no event.
  unfoldable pub read_sse : Bool → Option (List Text) → Option (List E)
  unfolding read_chunks
  read_sse false body = none
  read_sse true none = some []
  read_sse true (some chunks) = some (read_chunks [] chunks)

-- The parts of a packet that the pages read; the objects among them are kept as they are.
pub record Packet : Type 0 where
  pub usage : Option Json
  pub finish_reason : Option Text
  pub web : Option Json
  pub notice : Option Json
  pub file : Option Json
  pub queue : Option Json
  pub call : Option Json
  pub confirm : Option Json
  pub reasoning_content : Option Text
  pub content : Option Text

-- `if (v)` on a text that may be missing
unfoldable pub truthy : Option Text → Option Text
truthy (some (c ∷ s)) = some (c ∷ s)
truthy _ = none

unfoldable pub call_if {ℓ κ} : {A : Type ℓ} {B : Type κ} → (A → B) → Option A → List B
call_if f none = []
call_if f (some a) = f a ∷ []

-- What `onDelta` of `streamChat` is called with.
pub data Delta : Type 0 where
  used : Json → Delta
  truncated : Delta
  web_step : Json → Delta
  noticed : Json → Delta
  file_edit : Json → Delta
  queued : Json → Delta
  reasoning_chunk : Text → Delta
  content_chunk : Text → Delta

unfoldable pub cut_short : Option Text → List Delta
cut_short none = []
cut_short (some reason) = if text_eq reason (codes "length") then truncated ∷ [] else []

unfoldable pub chat_deltas : Packet → List Delta
unfolding call_if cut_short truthy
chat_deltas p =
    call_if used p.usage
    ++ cut_short p.finish_reason
    ++ call_if web_step p.web
    ++ call_if noticed p.notice
    ++ call_if file_edit p.file
    ++ call_if queued p.queue
    ++ call_if reasoning_chunk (truthy p.reasoning_content)
    ++ call_if content_chunk (truthy p.content)

-- `streamOcr`
unfoldable pub ocr_chunks : Packet → List Text
unfolding call_if truthy
ocr_chunks p = call_if (λ c. c) (truthy p.content)

-- The callbacks of `streamSupportChat`.
pub data SupportCall : Type 0 where
  on_reasoning : Text → SupportCall
  on_chunk : Text → SupportCall
  on_tool_call : Json → SupportCall
  on_notice : Json → SupportCall
  on_confirm : Json → SupportCall

unfoldable pub support_calls : Packet → List SupportCall
unfolding call_if truthy
support_calls p =
    call_if on_reasoning (truthy p.reasoning_content)
    ++ call_if on_chunk (truthy p.content)
    ++ call_if on_tool_call p.call
    ++ call_if on_notice p.notice
    ++ call_if on_confirm p.confirm
