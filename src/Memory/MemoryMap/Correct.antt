-- ===== src/Memory/MemoryMap/Correct.antt =====
-- `MemoryMap::correct_overlapping_ranges`. Its two loops are one loop over the state (i, entries): the
-- `while` goes on at the same index or the one before, and the `for` at the next. `none` stands for
-- running out of fuel.
use ultra_os.Common.{
  ℕ, zero, suc, ◌+◌, ◌-◌, ◌≡◌, Bool, false, not, ◌&&◌, ◌||◌, leb, ◌==◌, if◌then◌else◌, List, [],
  ◌∷◌, Option, none, some, length, get_elem?, set, Result, Fault, assertion, panic, guard, ok, err,
  ◌>>=◌, ◌>>◌,
}
use ultra_os.Memory.Page.{page_size, round_down}
use ultra_os.Memory.Range.{length_of, set_length, is_empty, overlaps}
use ultra_os.Memory.MemoryMap.{
  PhysicalRange, MemoryMap, is_free, is_reserved, set_end, align_physical, shatter_against,
  erase_range_at, emplace_range_at,
}

abbrev pub trivially_mergeable : PhysicalRange → PhysicalRange → Bool
trivially_mergeable l r = l.range.end == r.range.begin && l.type == r.type

-- The condition of the `while`, on the entries at `i` and `i + 1`.
abbrev pub must_correct : PhysicalRange → PhysicalRange → Bool
must_correct l r = overlaps l.range r.range || trivially_mergeable l r

-- A free piece shrinks to whole pages.
unfoldable pub trim : PhysicalRange → Result Fault PhysicalRange
trim r =
    if is_free r
    then (do
      aligned ← align_physical r page_size
      ok (record {
        range = set_length (round_down (length_of aligned.range)) aligned.range;
        type = aligned.type;
      }))
    else ok r

abbrev pub is_valid_range : PhysicalRange → Bool
is_valid_range r = not (is_empty r.range) && (leb page_size (length_of r.range) || is_reserved r)

-- The loop that stores the valid pieces: the index after the last, and the entries.
unfoldable pub store_pieces : ℕ → ℕ → List PhysicalRange → MemoryMap → Result Fault (ℕ × MemoryMap)
store_pieces i j [] m = ok (j, m)
store_pieces i j (r ∷ pieces) m =
    let skipped = store_pieces i j pieces m in
    let stored = store_pieces i (j + 1) pieces (set m j r) in
    if not (is_valid_range r)
    then skipped
    else if j - i == 2
    then (do m' ← emplace_range_at j r m; ok (j + 1, m'))
    else stored

-- The body of the `while`, on the entries `l` and `r` at `i` and `i + 1`.
unfoldable pub correct_pair :
    ℕ → PhysicalRange → PhysicalRange → MemoryMap → Result Fault (ℕ × MemoryMap)
unfolding trim store_pieces
correct_pair i l r m =
    if trivially_mergeable l r
    then (do m' ← erase_range_at (i + 1) (set m i (set_end r.range.end l)); ok (i, m'))
    else (do
      (x, y, z) ← shatter_against l r
      x' ← trim x
      y' ← trim y
      z' ← trim z
      (j, m') ← store_pieces i i (x' ∷ y' ∷ z' ∷ []) m
      guard (not (j == i)) panic
      m'' ← if j - i == 1 then erase_range_at j m' else ok m'
      ok (i - 1, m''))

unfoldable pub correct_loop : ℕ → ℕ → MemoryMap → Option (Result Fault MemoryMap)
unfolding correct_pair
correct_loop zero i m = none
correct_loop (suc fuel) i m =
    let onward = correct_loop fuel (i + 1) m in
    elim (get_elem? m i) [
      | none ↦ some (ok m)
      | some l ↦ elim (get_elem? m (i + 1)) [
        | none ↦ some (ok m)
        | some r ↦
            if must_correct l r
            then elim (correct_pair i l r m) [
              | ok (i', m') ↦ correct_loop fuel i' m'
              | err e ↦ some (err e)
            ]
            else onward
      ]
    ]

unfoldable pub correct_overlapping_ranges : ℕ → ℕ → MemoryMap → Option (Result Fault MemoryMap)
unfolding correct_loop
correct_overlapping_ranges fuel hint m =
    if length m == 0 then some (err assertion) else correct_loop fuel hint m

-- No two neighbours of the map overlap or can be merged.
unfoldable pub Separated : MemoryMap → Type 0
Separated [] = Unit
Separated (l ∷ []) = Unit
Separated (l ∷ r ∷ m) = (must_correct l r ≡ false) × Separated (r ∷ m)
