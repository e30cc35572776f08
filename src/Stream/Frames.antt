-- ===== src/Stream/Frames.antt =====
-- What is sent as frames is what is read.
use mathlib.Core.Path.{ap₂}
use dgx_spark_llm_platform.Base.{
  ℕ, false, List, [], ◌∷◌, ◌++◌, append_assoc, map, ◌==◌, Option, some, All, All-append, ◌≡◌, ◌≢◌,
  refl, ap, ◌∙◌, arith,
}
use dgx_spark_llm_platform.Base.Text.{
  Text, codes, newline, split, text_eq, trim, trim_start, is_space, starts_with,
}
use dgx_spark_llm_platform.Stream.{
  push_first, new_part, cut, find_data, of_line, of_part, of_parts, read_chunks,
}
use dgx_spark_llm_platform.Stream.Chunks.{flat, read_chunks-flat}

-- The frame of a payload.
abbrev pub frame : Text → Text
frame payload = codes "data: " ++ (payload ++ newline ∷ newline ∷ [])

abbrev pub frames : List Text → Text
frames [] = []
frames (p ∷ ps) = frame p ++ frames ps

cut_frame :
    (l s : Text)
    → All (λ c. c ≢ newline) l
    → cut (l ++ newline ∷ newline ∷ s) ≡ (l ∷ (cut s).0, (cut s).1)
unfolding cut
cut_frame [] s h = unfold new_part in refl
cut_frame (c ∷ []) s (h, _) =
    let e : (c == newline) ≡ false = ground arith in unfold push_first in rw e refl
cut_frame (c ∷ d ∷ l) s (h, hs) =
    let e : (c == newline) ≡ false = ground arith in
    rw e (ap (push_first c) (cut_frame (d ∷ l) s hs) ∙ unfold push_first in refl)

split_one : (sep : ℕ) (s : Text) → All (λ c. c ≢ sep) s → split sep s ≡ s ∷ []
unfolding split
split_one sep [] h = refl
split_one sep (c ∷ s) (h, hs) = ground (arith, split_one sep s hs)

one_line : (p : Text) → All (λ c. c ≢ newline) p → All (λ c. c ≢ newline) (codes "data: " ++ p)
one_line p h = All-append (λ c. c ≢ newline) (codes "data: ") p (ground arith) h

module _ {E : Type 0} (parse : Text → Option E) where
  -- A payload that is an event: one line, with no space at its ends, that parses.
  abbrev pub IsPayload : Text × E → Type 0
  IsPayload (p, e) =
      All (λ c. c ≢ newline) p
      × (trim p ≡ p)
      × (text_eq p (codes "[DONE]") ≡ false)
      × (parse p ≡ some e)

  of_frame : (p : Text) (e : E) → IsPayload (p, e) → of_part parse (codes "data: " ++ p) ≡ e ∷ []
  unfolding of_part find_data of_line starts_with
  of_frame p e (line, t, d, h) =
      let payload : trim (b' ' ∷ p) ≡ p = unfold trim trim_start is_space in t in
      rw (split_one newline (codes "data: " ++ p) (one_line p line), payload, d, h) refl

  events_of_frames :
      (sent : List (Text × E))
      → All IsPayload sent
      → of_parts parse (cut (frames (map (λ (p, e). p) sent))).0 ≡ map (λ (p, e). e) sent
  unfolding of_parts
  events_of_frames [] h = unfold cut in refl
  events_of_frames ((p, e) ∷ sent) (h, hs) =
      let rest = frames (map (λ (p, e). p) sent) in
      ap (λ q. of_parts parse q.0)
        (ap (λ r. cut (codes "data: " ++ r)) (append_assoc p (newline ∷ newline ∷ []) rest)
          ∙ cut_frame (codes "data: " ++ p) rest (one_line p h.0))
      ∙ ap₂ ◌++◌ (of_frame p e h) (events_of_frames sent hs)

  -- Events that are sent one by one as frames, each a line without space at its ends that parses
  -- and is not the mark of the end, are read back in order, whatever chunks the network makes of the
  -- stream.
  pub read_chunks-frames :
      (sent : List (Text × E)) (chunks : List Text)
      → All IsPayload sent
      → flat chunks ≡ frames (map (λ (p, e). p) sent)
      → read_chunks parse [] chunks ≡ map (λ (p, e). e) sent
  read_chunks-frames sent chunks h same =
      read_chunks-flat parse chunks
      ∙ ap (λ s. of_parts parse (cut s).0) same
      ∙ events_of_frames sent h
