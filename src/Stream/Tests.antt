-- ===== src/Stream/Tests.antt =====
-- Runs of the streams, and their theorems at one input.
use dgx_spark_llm_platform.Base.{true, List, [], ◌∷◌, map, none, some, ◌≡◌, refl, arith}
use dgx_spark_llm_platform.Base.Text.{
  Text, codes, split, text_eq, trim, trim_start, trim_end, is_space, is_blank, starts_with,
}
use dgx_spark_llm_platform.Stream.{
  push_first, new_part, cut, find_data, of_line, of_part, of_parts, read_chunks, read_sse, Packet,
  chat_deltas, call_if, cut_short, truthy, truncated, content_chunk,
}
use dgx_spark_llm_platform.Stream.Chunks.{flat, read_chunks-flat}
use dgx_spark_llm_platform.Stream.Frames.{read_chunks-frames}

-- Two packets in three chunks, one of which ends between the two line breaks.
abbrev chunks : List Text
chunks = codes "data: 1\n" ∷ codes "\ndata: " ∷ codes "2\n\ndata: [DONE]\n\n" ∷ []

read_sse_run : read_sse (λ s. some s) true (some chunks) ≡ some (codes "1" ∷ codes "2" ∷ [])
unfolding read_sse read_chunks of_parts of_part of_line find_data cut push_first new_part split
    text_eq trim trim_start trim_end is_space is_blank starts_with
read_sse_run = refl

read_chunks-flat_example :
    read_chunks (λ s. some s) [] chunks ≡ of_parts (λ s. some s) (cut (flat chunks)).0
read_chunks-flat_example = read_chunks-flat (λ s. some s) chunks

abbrev pair : List (Text × Text)
pair = (codes "1", codes "1") ∷ (codes "2", codes "2") ∷ []

abbrev halves : List Text
halves = codes "data: 1\n" ∷ codes "\ndata: 2\n\n" ∷ []

read_chunks-frames_example : read_chunks (λ s. some s) [] halves ≡ map (λ (p, e). e) pair
unfolding trim trim_start trim_end is_space is_blank text_eq
read_chunks-frames_example =
    read_chunks-frames (λ s. some s) pair halves
      (((ground arith, tt), refl, refl, refl), (((ground arith, tt), refl, refl, refl), tt)) refl

abbrev packet : Packet
packet = record {
  usage = none;
  finish_reason = some (codes "length");
  web = none;
  notice = none;
  file = none;
  queue = none;
  call = none;
  confirm = none;
  reasoning_content = some [];
  content = some (codes "a");
}

chat_deltas_run : chat_deltas packet ≡ truncated ∷ content_chunk (codes "a") ∷ []
unfolding chat_deltas call_if cut_short truthy text_eq
chat_deltas_run = refl
