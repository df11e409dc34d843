-- ===== src/Memory/VirtualAllocator/RangeSet.antt =====
-- `Set<Range, Less<>>` (Kernel/Common/Set.h) as the list of its elements in ascending order.
use ultra_os.Common.{
  ℕ, Bool, true, false, ltb, leb, ◌==◌, if◌then◌else◌, List, [], ◌∷◌, Option, none, some,
}
use ultra_os.Memory.Range.{Range}

-- `empty()`.
abbrev pub is_nil : List Range → Bool
is_nil [] = true
is_nil (r ∷ rs) = false

-- `lower_bound(address)`: the first element that does not begin below the address.
unfoldable pub lower_bound : List Range → ℕ → Option Range
lower_bound [] address = none
lower_bound (r ∷ rs) address = if leb address r.begin then some r else lower_bound rs address

-- `++` at an element that begins at the address.
unfoldable pub upper_bound : List Range → ℕ → Option Range
upper_bound [] address = none
upper_bound (r ∷ rs) address = if ltb address r.begin then some r else upper_bound rs address

-- The element in front of another, where the list begins with `prev`, if there is one.
abbrev pub before_from : Option Range → List Range → ℕ → Option Range
before_from prev [] address = prev
before_from prev (r ∷ rs) address =
    let rest = before_from (some r) rs address in if leb address r.begin then prev else rest

-- `--` at `lower_bound(address)`; `none` if that is `begin()`.
unfoldable pub before : List Range → ℕ → Option Range
before l address = before_from none l address

-- `--end()`.
unfoldable pub last_of : List Range → Option Range
last_of [] = none
last_of (r ∷ []) = some r
last_of (r ∷ s ∷ rs) = last_of (s ∷ rs)

-- `remove(it)`.
unfoldable pub remove : Range → List Range → List Range
remove x [] = []
remove x (r ∷ rs) = if r.begin == x.begin then rs else r ∷ remove x rs

-- `emplace(range)`: an element that begins at the same address is kept.
unfoldable pub emplace : Range → List Range → List Range
emplace x [] = x ∷ []
emplace x (r ∷ rs) =
    if x.begin == r.begin
    then r ∷ rs
    else if ltb x.begin r.begin
    then x ∷ r ∷ rs
    else r ∷ emplace x rs
