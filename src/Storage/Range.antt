-- ===== src/Storage/Range.antt =====
-- `parse_range` and `iter_file_range` of app/storage/filesystem.py.
pub mod InFile
pub mod Echo
pub mod Chunks
use yeoun_ai.Base.{
  ℕ, zero, suc, ◌+◌, ◌-◌, ◌*◌, length, min, not, ◌||◌, Option, none, some, List, [], ◌∷◌,
  if◌then◌else◌, leb, ◌==◌, nat_eq, contains, take, drop,
}
use yeoun_ai.Base.Int.{ℤ, pos, negsuc, sub_ℕ, ltb_ℤ, min_ℤ, max_ℤ}
use yeoun_ai.Base.Text.{Text, codes, is_empty, starts_with, strip}
use yeoun_ai.Base.Number.{parse_int}
use yeoun_ai.Fs.{Bytes}

-- `RangeNotSatisfiable`, by its message.
pub data RangeError : Type 0 where
  unsupported_unit multiple_ranges suffix_not_positive bad_number outside_file : RangeError

-- The result: `None`, both bounds included, or the exception.
pub data Parsed : Type 0 where
  whole : Parsed
  part : ℤ → ℤ → Parsed
  not_satisfiable : RangeError → Parsed

-- What the `try` block ends with: the bounds, or one of the exceptions that `int` and the block
-- itself raise. `RangeNotSatisfiable` is a subclass of `ValueError`.
pub data Bounds : Type 0 where
  bounds : ℤ → ℤ → Bounds
  value_error : Bounds
  range_not_satisfiable : RangeError → Bounds

-- `s.partition("-")`, without the separator.
before_dash : Text → Text
before_dash [] = []
before_dash (c ∷ s) = let rest = before_dash s in if c == b'-' then [] else c ∷ rest

after_dash : Text → Text
after_dash [] = []
after_dash (c ∷ s) = let rest = after_dash s in if c == b'-' then s else rest

abbrev minus_one : ℕ → ℤ
minus_one n = sub_ℕ n 1

suffix_bounds : ℕ → ℤ → Bounds
suffix_bounds size (pos zero) = range_not_satisfiable suffix_not_positive
suffix_bounds size (negsuc n) = range_not_satisfiable suffix_not_positive
suffix_bounds size (pos (suc n)) = bounds (max_ℤ (pos 0) (sub_ℕ size (suc n))) (minus_one size)

-- The body of the `try` block.
try_bounds : Text → Text → ℕ → Bounds
unfolding suffix_bounds
try_bounds start_str end_str size =
    if is_empty start_str
    then elim (parse_int end_str) [ none ↦ value_error | some n ↦ suffix_bounds size n ]
    else elim (parse_int start_str) [
      | none ↦ value_error
      | some start ↦
          if is_empty end_str
          then bounds start (minus_one size)
          else elim (parse_int end_str) [ none ↦ value_error | some end ↦ bounds start end ]
    ]

check_bounds : ℤ → ℤ → ℕ → Parsed
check_bounds start end size =
    if ltb_ℤ start (pos 0) || ltb_ℤ end start || not (ltb_ℤ start (pos size))
    then not_satisfiable outside_file
    else part start (min_ℤ end (minus_one size))

-- `except ValueError` takes both exceptions.
except_value_error : Bounds → ℕ → Parsed
unfolding check_bounds
except_value_error (bounds start end) size = check_bounds start end size
except_value_error value_error size = not_satisfiable bad_number
except_value_error (range_not_satisfiable e) size = not_satisfiable bad_number

parse_spec : Text → ℕ → Parsed
unfolding before_dash after_dash try_bounds except_value_error
parse_spec spec size =
    if contains spec b','
    then not_satisfiable multiple_ranges
    else except_value_error (try_bounds (before_dash spec) (after_dash spec) size) size

unfoldable pub parse_range : Option Text → ℕ → Parsed
unfolding parse_spec
parse_range none size = whole
parse_range (some header) size =
    if is_empty header
    then whole
    else if not (starts_with header (codes "bytes="))
    then not_satisfiable unsupported_unit
    else parse_spec (strip (drop 6 header)) size

-- `_RANGE_CHUNK_SIZE`
abbrev pub range_chunk_size : ℕ
range_chunk_size = 64 * 1024

-- The `while remaining > 0` loop over what stands in the file from the current position on. One
-- round for each chunk; `remaining` rounds are enough.
read_loop : ℕ → ℕ → Bytes → ℕ → List Bytes
read_loop zero chunk_size rest remaining = []
read_loop (suc fuel) chunk_size rest remaining =
    let block = take (min chunk_size remaining) rest in
    let more =
      read_loop fuel chunk_size (drop (min chunk_size remaining) rest) (remaining - length block) in
    if leb remaining 0 || is_empty block then [] else block ∷ more

-- The chunks that `iter_file_range(path, start, end, chunk_size)` yields from a file.
unfoldable pub iter_file_range : Bytes → ℕ → ℕ → ℕ → List Bytes
unfolding read_loop
iter_file_range content start end chunk_size =
    let remaining = end + 1 - start in read_loop remaining chunk_size (drop start content) remaining
