-- ===== src/Script/Depth.antt =====
-- The depth of a script made of code, strings and comments.
use dgx_spark_llm_platform.Base.{ℕ, false, List, [], ◌∷◌, ◌++◌, ◌≡◌, ◌≢◌, refl, ap, ◌∙◌, arith, All}
use dgx_spark_llm_platform.Base.Text.{Text, newline}
use dgx_spark_llm_platform.Base.Int.{ℤ, pos}
use dgx_spark_llm_platform.Script.{
  code, line_comment, block_open, block, block_close, quoted, State, step_code, step, run, at_end,
  final_depth,
}
use dgx_spark_llm_platform.Script.Pieces.{
  Piece, plain, quote, line, comment, print, print_all, IsPiece, shift_all, depth_behind, InMode,
  Passes, pass, join_passes, plain-Passes, stretch-Passes,
}

quote-Passes :
    (q : ℕ) (body rest : Text) (d : ℤ) (st : State)
    → IsPiece (quote q body)
    → InMode code d st
    → Passes code d (print (quote q body)) rest st
quote-Passes q body rest d st (which, inside) (m, n, e) =
    join_passes (quoted q false) d code d (q ∷ []) (body ++ q ∷ []) rest st
      (pass code (quoted q false) d q ((body ++ q ∷ []) ++ rest) st m
        (unfold step step_code in ground arith))
      (λ st1 k1.
        join_passes (quoted q false) d code d body (q ∷ []) rest st1
          (stretch-Passes (quoted q false) (λ c. (c ≢ q) × (c ≢ b'\\'))
            (λ c next st2 h. unfold step in ground arith) body (q ∷ rest) d st1 inside k1)
          (λ st2 (m2, n2, e2).
            pass (quoted q false) code d q rest st2 m2 (unfold step in ground arith)))

line-Passes :
    (body rest : Text) (d : ℤ) (st : State)
    → IsPiece (line body)
    → InMode code d st
    → Passes code d (print (line body)) rest st
line-Passes body rest d st inside (m, n, e) =
    join_passes line_comment d code d (b'/' ∷ []) (b'/' ∷ (body ++ newline ∷ [])) rest st
      (pass code line_comment d b'/' ((b'/' ∷ (body ++ newline ∷ [])) ++ rest) st m
        (unfold step step_code in ground arith))
      (λ st1 (m1, n1, e1).
        join_passes line_comment d code d (b'/' ∷ []) (body ++ newline ∷ []) rest st1
          (pass line_comment line_comment d b'/' ((body ++ newline ∷ []) ++ rest) st1 m1
            (unfold step in ground arith))
          (λ st2 k2.
            join_passes line_comment d code d body (newline ∷ []) rest st2
              (stretch-Passes line_comment (λ c. c ≢ newline)
                (λ c next st3 h. unfold step in ground arith) body (newline ∷ rest) d st2 inside k2)
              (λ st3 (m3, n3, e3).
                pass line_comment code d newline rest st3 m3 (unfold step in ground arith))))

comment-Passes :
    (body rest : Text) (d : ℤ) (st : State)
    → IsPiece (comment body)
    → InMode code d st
    → Passes code d (print (comment body)) rest st
comment-Passes body rest d st inside (m, n, e) =
    join_passes block_open d code d (b'/' ∷ []) (b'*' ∷ (body ++ b'*' ∷ b'/' ∷ [])) rest st
      (pass code block_open d b'/' ((b'*' ∷ (body ++ b'*' ∷ b'/' ∷ [])) ++ rest) st m
        (unfold step step_code in ground arith))
      (λ st1 (m1, n1, e1).
        join_passes block d code d (b'*' ∷ []) (body ++ b'*' ∷ b'/' ∷ []) rest st1
          (pass block_open block d b'*' ((body ++ b'*' ∷ b'/' ∷ []) ++ rest) st1 m1
            (unfold step in ground arith))
          (λ st2 k2.
            join_passes block d code d body (b'*' ∷ b'/' ∷ []) rest st2
              (stretch-Passes block (λ c. c ≢ b'*') (λ c next st3 h. unfold step in ground arith)
                body (b'*' ∷ b'/' ∷ rest) d st2 inside k2)
              (λ st3 (m3, n3, e3).
                join_passes block_close d code d (b'*' ∷ []) (b'/' ∷ []) rest st3
                  (pass block block_close d b'*' (b'/' ∷ rest) st3 m3 (unfold step in ground arith))
                  (λ st4 (m4, n4, e4).
                    pass block_close code d b'/' rest st4 m4 (unfold step in ground arith)))))

run-print_all :
    (ps : List Piece) (d : ℤ) (st : State)
    → All IsPiece ps
    → InMode code d st
    → run (print_all ps) st ≡ depth_behind ps d
run-print_all [] d st h (m, n, e) = unfold run in ap (λ k. at_end k st.depth) m ∙ unfold at_end in e
run-print_all (plain s ∷ ps) d st (h, hs) k =
    let (st', e, k') = plain-Passes s (print_all ps) d st h k in
    e ∙ run-print_all ps (shift_all s d) st' hs k'
run-print_all (quote q body ∷ ps) d st (h, hs) k =
    let (st', e, k') = quote-Passes q body (print_all ps) d st h k in
    e ∙ run-print_all ps d st' hs k'
run-print_all (line body ∷ ps) d st (h, hs) k =
    let (st', e, k') = line-Passes body (print_all ps) d st h k in e ∙ run-print_all ps d st' hs k'
run-print_all (comment body ∷ ps) d st (h, hs) k =
    let (st', e, k') = comment-Passes body (print_all ps) d st h k in
    e ∙ run-print_all ps d st' hs k'

-- In a script made of code without quotes, slashes and backquotes, of strings without backslashes,
-- of line comments, and of block comments without asterisks, in any order, the depth counts the
-- brackets of the code and none of those in the strings and the comments.
pub final_depth-print_all :
    (ps : List Piece) → All IsPiece ps → final_depth (print_all ps) ≡ depth_behind ps (pos 0)
unfolding final_depth
final_depth-print_all ps h = run-print_all ps (pos 0) _ h (refl, refl, refl)
