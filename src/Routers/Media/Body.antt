-- ===== src/Routers/Media/Body.antt =====
-- What `_stream_response` sends.
use mathlib.Core.List.{flatten}
use yeoun_ai.Base.{
  ℕ, zero, suc, ◌+◌, ◌-◌, ◌≡◌, ◌≤◌, refl, sym, ap, ◌∙◌, Option, none, some, [], ◌∷◌, ◌++◌, arith,
  length, take, drop, take-append-drop, length-drop,
}
use yeoun_ai.Base.Int.{ℤ, pos, negsuc}
use yeoun_ai.Base.Text.{Text}
use yeoun_ai.Base.Exec.{Result, ok, raise}
use yeoun_ai.Fs.{Bytes}
use yeoun_ai.Storage.Range.{Parsed, whole, part, not_satisfiable, parse_range, range_chunk_size}
use yeoun_ai.Storage.Range.InFile.{Within, parse_range-Within}
use yeoun_ai.Storage.Range.Chunks.{iter_file_range_lem}
use yeoun_ai.Routers.Media.{
  Streaming, full_chunk, full_loop, content_range, range_not_satisfiable, respond, stream_response,
}

full_loop_lem :
    (fuel : ℕ) (rest : Bytes) → length rest ≤ fuel → flatten (full_loop fuel rest) ≡ rest
unfolding full_loop flatten
full_loop_lem zero [] h = refl
full_loop_lem zero (c ∷ rest) h = absurd (omega arith)
full_loop_lem (suc fuel) [] h = refl
full_loop_lem (suc fuel) (c ∷ rest) h =
    ap (λ more. take full_chunk (c ∷ rest) ++ more)
      (full_loop_lem fuel (drop full_chunk (c ∷ rest))
        (omega (arith, length-drop full_chunk (c ∷ rest))))
    ∙ take-append-drop full_chunk (c ∷ rest)

-- The answer for a parsed header: the whole file with 200, the bytes of the range with 206 and its
-- bounds in `Content-Range`, or 416 with the size. `Content-Length` is the length of the body.
abbrev pub Answers : Bytes → Parsed → Result Streaming → Type 0
Answers content whole (ok r) =
    (r.status_code ≡ 200)
    × (flatten r.body ≡ content)
    × (r.content_length ≡ length (flatten r.body))
    × (r.content_range ≡ none)
Answers content (part (pos start) (pos end)) (ok r) =
    (r.status_code ≡ 206)
    × (flatten r.body ≡ take (end + 1 - start) (drop start content))
    × (r.content_length ≡ length (flatten r.body))
    × (r.content_range ≡ some (content_range start end (length content)))
Answers content (not_satisfiable e) r = r ≡ raise (range_not_satisfiable (length content))
Answers content _ r = ⊥

respond-Answers :
    (content : Bytes) (p : Parsed)
    → ((s e : ℤ) → p ≡ part s e → Within s e (length content))
    → Answers content p (respond content p)
unfolding respond
respond-Answers content whole within =
    let e = full_loop_lem (length content) content (omega arith) in
    (refl, e, ap length (sym e), refl)
respond-Answers content (not_satisfiable e) within = refl
respond-Answers content (part (pos start) (pos end)) within =
    let inside = within (pos start) (pos end) refl in
    let chunks =
      iter_file_range_lem content start end range_chunk_size inside.0 inside.1 (omega arith) in
    (refl, chunks.0, sym chunks.1, refl)
respond-Answers content (part (pos start) (negsuc n)) within = within (pos start) (negsuc n) refl
respond-Answers content (part (negsuc n) e) within = within (negsuc n) e refl

-- Every request for a file is answered as its parsed `Range` header asks.
pub stream_response-Answers :
    (content : Bytes) (range_header : Option Text)
    → Answers content
        (parse_range range_header (length content))
        (stream_response content range_header)
unfolding stream_response
stream_response-Answers content range_header =
    respond-Answers content (parse_range range_header (length content))
      (λ s e h. parse_range-Within range_header (length content) h)
