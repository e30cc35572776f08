-- ===== src/Fence/Closed.antt =====
-- What `closedContent` promises: every fence is closed.
use dgx_spark_llm_platform.Base.{
  ℕ, ◌+◌, true, false, [], ◌∷◌, ◌++◌, none, some, ◌≡◌, refl, ◌⊎◌, inl, inr, arith, Bool-cases,
}
use dgx_spark_llm_platform.Base.Text.{Text, newline}
use dgx_spark_llm_platform.Fence.{
  fence, count_from, is_odd, closed_content, open_code_fence, OpenFence,
}

count_from-append :
    (s t : Text) (run : ℕ) → count_from run (s ++ newline ∷ t) ≡ count_from run s + count_from 0 t
unfolding count_from
count_from-append [] t run = ground arith
count_from-append (c ∷ s) t run =
    ground (arith, count_from-append s t 0, count_from-append s t (run + 1))

closed_content-even : (content : Text) → is_odd (count_from 0 (closed_content content)) ≡ false
unfolding closed_content
closed_content-even content = elim (Bool-cases (is_odd (count_from 0 content))) [
  | inl odd ↦
      rw odd (rw (count_from-append content fence 0) (unfold is_odd count_from in (ground arith)))
  | inr even ↦ rw even even
]

-- In what `closedContent` returns, the fences pair up, so none is left open and closing it again
-- changes nothing; it is the content itself, or the content with one fence more on a line of its
-- own, which is the case whenever the content has an open fence.
pub closed_content_lem :
    (content : Text)
    → (is_odd (count_from 0 (closed_content content)) ≡ false)
      × (open_code_fence (closed_content content) ≡ none)
      × (closed_content (closed_content content) ≡ closed_content content)
      × ((f : OpenFence)
          → open_code_fence content ≡ some f
          → closed_content content ≡ content ++ newline ∷ fence)
closed_content_lem content =
    let even = closed_content-even content in
    (
      even,
      unfold open_code_fence in ground (arith, even),
      again (closed_content content) even,
      λ f h. opened f h (Bool-cases (is_odd (count_from 0 content))),
    )
  where
    again : (s : Text) → is_odd (count_from 0 s) ≡ false → closed_content s ≡ s
    again s h = unfold closed_content in rw h refl

    opened :
        (f : OpenFence)
        → open_code_fence content ≡ some f
        → (is_odd (count_from 0 content) ≡ true) ⊎ (is_odd (count_from 0 content) ≡ false)
        → closed_content content ≡ content ++ newline ∷ fence
    opened f h (inl odd) = unfold closed_content in rw odd refl
    opened f h (inr even) = unfold open_code_fence in absurd (ground arith)
