-- ===== src/Storage/Range/InFile.antt =====
-- What `parse_range` accepts lies in the file.
use yeoun_ai.Base.{ℕ, ◌≤◌, ◌<◌, ◌≡◌, Option, none, some, arith, drop}
use yeoun_ai.Base.Int.{ℤ, pos, negsuc}
use yeoun_ai.Base.Text.{Text, strip}
use yeoun_ai.Storage.Range.{
  part, Bounds, bounds, value_error, range_not_satisfiable, check_bounds, except_value_error,
  before_dash, after_dash, try_bounds, parse_range,
}

-- Both bounds are positions of a file of that size, in order.
abbrev pub Within : ℤ → ℤ → ℕ → Type 0
Within (pos start) (pos end) size = (start ≤ end) × (end < size)
Within (pos start) (negsuc n) size = ⊥
Within (negsuc n) end size = ⊥

check_bounds-Within :
    (start end : ℤ) (size : ℕ) {s e : ℤ} → check_bounds start end size ≡ part s e → Within s e size
unfolding check_bounds
check_bounds-Within (pos a) (pos b) size {s = pos i} {e = pos j} h = ground arith
check_bounds-Within a b size {s = pos i} {e = negsuc j} h = ground arith
check_bounds-Within a b size {s = negsuc i} {e = e} h = ground arith
check_bounds-Within a b size {s = pos i} {e = pos j} h = ground arith

except_value_error-Within :
    (b : Bounds) (size : ℕ) {s e : ℤ} → except_value_error b size ≡ part s e → Within s e size
unfolding except_value_error
except_value_error-Within (bounds start end) size h = check_bounds-Within start end size h
except_value_error-Within value_error size h = cc
except_value_error-Within (range_not_satisfiable e) size h = cc

pub parse_range-Within :
    (header : Option Text) (size : ℕ) {s e : ℤ}
    → parse_range header size ≡ part s e
    → Within s e size
unfolding parse_range
parse_range-Within none size h = cc
parse_range-Within (some header) size h = ground (
  arith,
  except_value_error-Within
      (try_bounds (before_dash (strip (drop 6 header))) (after_dash (strip (drop 6 header))) size)
      size,
)
