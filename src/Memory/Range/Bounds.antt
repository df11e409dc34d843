-- ===== src/Memory/Range/Bounds.antt =====
-- Well-formed ranges: the ends are in order, and both are 64-bit words.
use ultra_os.Common.{ℕ, ◌^◌, ◌≤◌, ◌<◌, ◌≡◌, ok, arith}
use ultra_os.Memory.Range.{Range, make, length_of, clipped_with_begin, clipped_with_end, aligned_to}

pub record IsValid (r : Range) : Type 0 where
  pub ordered : r.begin ≤ r.end
  pub word : r.end < 2 ^ 64

pub clipped_with_begin-IsValid :
    {r c : Range} (a : ℕ) → IsValid r → clipped_with_begin r a ≡ ok c → IsValid c
unfolding clipped_with_begin
clipped_with_begin-IsValid a v h = ground arith

pub clipped_with_end-IsValid :
    {r c : Range} (a : ℕ) → IsValid r → clipped_with_end r a ≡ ok c → IsValid c
unfolding clipped_with_end
clipped_with_end-IsValid a v h = ground arith

pub aligned_to-IsValid :
    {r c : Range} (alignment : ℕ) → IsValid r → aligned_to r alignment ≡ ok c → IsValid c
unfolding aligned_to
aligned_to-IsValid alignment v h = ground arith

-- The constructor asserts exactly when `start + length` wraps.
pub make-ok :
    (start length : ℕ) {r : Range}
    → start < 2 ^ 64
    → length < 2 ^ 64
    → make start length ≡ ok r
    → IsValid r × (r.begin ≡ start) × (length_of r ≡ length)
unfolding make
make-ok start length hs hl h = ground arith
