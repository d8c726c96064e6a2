-- ===== src/Storage/Tests.antt =====
-- Ranges of a short file, and paths below a root.
use mathlib.Core.List.{flatten}
use yeoun_ai.Base.{
  ◌≡◌, refl, some, min, leb, ltb, ◌&&◌, if◌then◌else◌, arith, All, take, drop, length, nat_eq,
}
use yeoun_ai.Base.Int.{pos}
use yeoun_ai.Base.Number.{parse_int}
use yeoun_ai.Base.Text.{codes, starts_with, strip}
use yeoun_ai.Base.Dict
use yeoun_ai.Storage.Range.{
  parse_range, part, not_satisfiable, outside_file, bad_number, iter_file_range,
}
use yeoun_ai.Storage.Range.InFile.{Within, parse_range-Within}
use yeoun_ai.Storage.Range.Echo.{
  closed_header, suffix_header, parse_range-closed, parse_range-suffix,
}
use yeoun_ai.Storage.Range.Chunks.{IsChunk, iter_file_range_lem}

parse_range-Within_example : Within (pos 2) (pos 9) 10
unfolding parse_range starts_with nat_eq strip parse_int
parse_range-Within_example = parse_range-Within (some (codes "bytes=2-99")) 10 refl

parse_range-closed_example :
    parse_range (closed_header 2 99) 10
    ≡ (if leb 2 99 && ltb 2 10 then part (pos 2) (pos (min 99 9)) else not_satisfiable outside_file)
parse_range-closed_example = parse_range-closed 2 99 10 (omega arith) (omega arith)

parse_range-suffix_example : parse_range (suffix_header 3) 10 ≡ (
    if leb 3 0
    then not_satisfiable bad_number
    else if leb 10 0
    then not_satisfiable outside_file
    else part (pos 7) (pos 9))
parse_range-suffix_example = parse_range-suffix 3 10 (omega arith)

iter_file_range_lem_example :
    let content = codes "abcdefgh" in
    (flatten (iter_file_range content 1 6 4) ≡ take 6 (drop 1 content))
    × (length (flatten (iter_file_range content 1 6 4)) ≡ 6)
    × All (IsChunk 4) (iter_file_range content 1 6 4)
iter_file_range_lem_example =
    iter_file_range_lem (codes "abcdefgh") 1 6 4 (omega arith) (omega arith) (omega arith)
