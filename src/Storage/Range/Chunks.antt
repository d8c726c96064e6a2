-- ===== src/Storage/Range/Chunks.antt =====
-- The chunks that `iter_file_range` yields are the requested bytes, in order.
use mathlib.Core.List.{flatten}
use native.Mathlib.Nat.{suc-sub-suc}
use yeoun_ai.Base.{
  ℕ, zero, suc, ◌+◌, ◌-◌, ◌≤◌, ◌<◌, min, ◌≡◌, refl, ◌∙◌, ap, [], ◌∷◌, ◌++◌, arith, take, drop, leb,
  All, length, length-take, length-drop, false,
}
use yeoun_ai.Base.Text.{is_empty}
use yeoun_ai.Fs.{Bytes}
use yeoun_ai.Storage.Range.{read_loop, iter_file_range}

pos_of_nonempty : (block : Bytes) → is_empty block ≡ false → 0 < length block
pos_of_nonempty [] h = cc
pos_of_nonempty (x ∷ block) h = omega arith

take_again :
    (m n : ℕ) (xs : Bytes)
    → m ≤ n
    → take m xs ++ take (n - length (take m xs)) (drop m xs) ≡ take n xs
take_again zero n xs h = ground arith
take_again (suc m) zero xs h = absurd (omega arith)
take_again (suc m) (suc n) [] h = ground arith
take_again (suc m) (suc n) (x ∷ xs) h =
    ap (◌∷◌ x) (rw suc-sub-suc (take_again m n xs (omega arith)))

-- One round fewer for each byte: a round that yields makes `remaining` smaller.
flatten-read_loop :
    (fuel chunk_size : ℕ) (rest : Bytes) (remaining : ℕ)
    → 0 < chunk_size
    → remaining ≤ fuel
    → flatten (read_loop fuel chunk_size rest remaining) ≡ take remaining rest
unfolding read_loop flatten
flatten-read_loop zero chunk_size rest zero pos h = refl
flatten-read_loop zero chunk_size rest (suc r) pos h = absurd (omega arith)
flatten-read_loop (suc fuel) chunk_size rest zero pos h = refl
flatten-read_loop (suc fuel) zero rest (suc r) pos h = absurd (omega arith)
flatten-read_loop (suc fuel) (suc c) [] (suc r) pos h =
    let e : min (suc c) (suc r) ≡ suc (min c r) = omega arith in rw e (ground arith)
flatten-read_loop (suc fuel) (suc c) (x ∷ rest) (suc r) pos h =
    let e : min (suc c) (suc r) ≡ suc (min c r) = omega arith in
    let more : leb (suc r) 0 ≡ false = ground arith in
    rw (e, more)
      (ap (λ s. (x ∷ take (min c r) rest) ++ s)
          (flatten-read_loop fuel (suc c) (drop (min c r) rest)
            (suc r - suc (length (take (min c r) rest))) (omega arith) (omega arith))
        ∙ take_again (suc (min c r)) (suc r) (x ∷ rest) (omega arith))

-- A chunk that is sent is not empty, and no longer than `chunk_size`.
abbrev pub IsChunk : ℕ → Bytes → Type 0
IsChunk chunk_size block = (0 < length block) × (length block ≤ chunk_size)

All-read_loop :
    (fuel chunk_size : ℕ) (rest : Bytes) (remaining : ℕ)
    → All (IsChunk chunk_size) (read_loop fuel chunk_size rest remaining)
unfolding read_loop
All-read_loop zero chunk_size rest remaining = tt
All-read_loop (suc fuel) chunk_size rest remaining =
    let block = take (min chunk_size remaining) rest in
    ground (
      arith,
      length-take (min chunk_size remaining) rest,
      pos_of_nonempty block,
      All-read_loop fuel chunk_size (drop (min chunk_size remaining) rest)
          (remaining - length block),
    )

-- From a range inside the file the chunks are the bytes from `start` to `end`, both included; there
-- are `end + 1 - start` of them; and each chunk is not empty and at most `chunk_size` long.
pub iter_file_range_lem :
    (content : Bytes) (start end chunk_size : ℕ)
    → start ≤ end
    → end < length content
    → 0 < chunk_size
    → (flatten (iter_file_range content start end chunk_size)
        ≡ take (end + 1 - start) (drop start content))
      × (length (flatten (iter_file_range content start end chunk_size)) ≡ end + 1 - start)
      × All (IsChunk chunk_size) (iter_file_range content start end chunk_size)
unfolding iter_file_range
iter_file_range_lem content start end chunk_size h within pos =
    let n = end + 1 - start in
    let e : flatten (read_loop n chunk_size (drop start content) n) ≡ take n (drop start content) =
      flatten-read_loop n chunk_size (drop start content) n pos (omega arith) in
    (
      e,
      rw e (omega (arith, length-take n (drop start content), length-drop start content)),
      All-read_loop n chunk_size (drop start content) n,
    )
