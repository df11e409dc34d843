-- ===== src/Memory/Page.antt =====
-- Kernel/Memory/Page.h: rounding of sizes and addresses to 4 KB pages, on AMD64. `x & ~mask` is the
-- remainder by the page size, and `x & mask` takes that remainder off.
use ultra_os.Common.{
  ℕ, ◌+◌, ◌-◌, ◌%◌, ◌^◌, ◌*◌, ◌≤◌, ◌<◌, ◌≡◌, ◌≢◌, Bool, arith, ◌==◌, if◌then◌else◌, add64,
}

-- `Page::size`.
abbrev pub page_size : ℕ
page_size = 4096

abbrev pub huge_size : ℕ
huge_size = 2 * 1024 * 1024

-- `value & AlignmentMask`.
abbrev pub align_mask : ℕ → ℕ → ℕ
align_mask size x = x - x % size

unfoldable pub round_up_custom : ℕ → ℕ → ℕ
round_up_custom page x =
    if x == 0 then page else if x % page == 0 then x else align_mask page (add64 x page)

unfoldable pub round_down_custom : ℕ → ℕ → ℕ
round_down_custom page x = if x % page == 0 then x else align_mask page x

unfoldable pub round_up : ℕ → ℕ
unfolding round_up_custom
round_up x = round_up_custom page_size x

unfoldable pub round_down : ℕ → ℕ
unfolding round_down_custom
round_down x = round_down_custom page_size x

unfoldable pub is_aligned : ℕ → Bool
is_aligned x = x % page_size == 0

-- `round_down` gives the largest multiple of the page size at or below its argument.
pub round_down_greatest :
    (x : ℕ) → (round_down x % 4096 ≡ 0) × (round_down x ≤ x) × (x < round_down x + 4096)
unfolding round_down
round_down_greatest x = ground arith

-- `round_up` gives the least multiple of the page size at or above a size that is not 0 and lies a
-- page below 2 ^ 64 at least; it takes 0 to a whole page.
pub round_up_least :
    (x : ℕ)
    → x + 4096 ≤ 2 ^ 64
    → (round_up x % 4096 ≡ 0)
      × (x ≤ round_up x)
      × (x ≢ 0 → round_up x < x + 4096)
      × (round_up 0 ≡ 4096)
unfolding round_up
round_up_least x h = ground arith
