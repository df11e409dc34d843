-- ===== src/Common/Multiples.antt =====
-- The first multiple of a number from another number on.
use Prim.Native.Nat.{ℕ, ◌+◌, ◌-◌, ◌*◌, ◌/◌, ◌%◌, ◌≤◌, ◌<◌}
use mathlib.Core.Path.{◌≡◌}
use mathlib.Core.Logic.{◌≢◌}
use native.Mathlib.Nat.{div-add-mod, mod-lt}
use native.Mathlib.Decide.{dec_le}
use native.Mathlib.Omega.{arith}

mul_mono : (a x y : ℕ) → x ≤ y → a * x ≤ a * y
mul_mono a x y h = grind arith

mul_cancel_lt : (a x y : ℕ) → a * x < a * y → x < y
mul_cancel_lt a x y h = elim (dec_le y x) [
  | yes p ↦ absurd (omega (arith, mul_mono a y x p))
  | no p ↦ omega arith
]

pub next_multiple-mod : (a b : ℕ) → 0 < a → (b + (a - b % a)) % a ≡ 0
next_multiple-mod a b h = grind arith

pub next_multiple-le : (a b k : ℕ) → 0 < a → b % a ≢ 0 → b ≤ k * a → b + (a - b % a) ≤ k * a
next_multiple-le a b k h ne le =
    let below : a * (b / a) < a * k = omega (arith, div-add-mod b a) in
    let lt : b / a < k = mul_cancel_lt a (b / a) k below in
    let up : a * (b / a + 1) ≤ a * k = mul_mono a (b / a + 1) k (omega arith) in
    omega (arith, up, div-add-mod b a, mod-lt b h)

-- No multiple lies strictly between a multiple and the next.
pub multiple_gap : (a c k : ℕ) → 0 < a → c % a ≡ 0 → k * a < c → k * a + a ≤ c
multiple_gap a c k h e lt =
    let below : a * k < a * (c / a) = omega (arith, div-add-mod c a) in
    let less : k < c / a = mul_cancel_lt a k (c / a) below in
    omega (arith, mul_mono a (k + 1) (c / a) (omega arith), div-add-mod c a)
