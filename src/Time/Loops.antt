-- ===== src/Time/Loops.antt =====
-- The loops of `Time::from_unix` end at the year and at the month that the time lies in.
use ultra_os.Common.{
  ℕ, zero, suc, ◌+◌, ◌-◌, ◌*◌, ◌/◌, ◌%◌, ◌≤◌, ◌<◌, ◌≡◌, inl, inr, refl, ltb, some, arith,
  Bool-cases,
}
use ultra_os.Time.{days_in_month, year_loop, month_loop}
use ultra_os.Time.Calendar.{days_in_year, days_before, days_of_months, months_next, before_december}

pub days_before_next : (y : ℕ) → 1970 ≤ y → days_before (suc y) ≡ days_before y + days_in_year y
unfolding days_before
days_before_next y h = ground arith

-- Where the loop over the years ends: at the year that the time lies in.
pub record InYear (y time : ℕ) (y' left : ℕ) : Type 0 where
  pub year_le : y ≤ y'
  pub in_range : y' < 65536
  pub small : left < days_in_year y' * 86400
  pub total : days_before y' * 86400 + left ≡ days_before y * 86400 + time

pub year_loop_lem :
    (fuel y time : ℕ)
    → 1970 ≤ y
    → y + fuel < 65536
    → time < fuel * 31536000
    → (y' : ℕ) × (left : ℕ) × (year_loop fuel y time ≡ some (y', left)) × InYear y time y' left
unfolding year_loop
year_loop_lem zero y time h k l = absurd (omega arith)
year_loop_lem (suc fuel) y time h k l = elim (Bool-cases (ltb time (days_in_year y * 86400))) [
  | inl short ↦ (
    y,
    time,
    ground (arith, short),
    record { year_le = omega arith; in_range = omega arith; small = ground arith; total = refl },
  )
  | inr long ↦
      let next : (y + 1) % 65536 ≡ suc y = omega arith in
      let spent = days_in_year y * 86400 in
      let far : spent ≤ time = ground (arith, long) in
      let (y', left, e, p) =
        year_loop_lem fuel (suc y) (time - spent) (omega arith) (omega arith)
          (ground (arith, l, far)) in
      (
        y',
        left,
        ground (arith, long, next, e),
        record {
          year_le = omega (arith, p.year_le);
          in_range = p.in_range;
          small = p.small;
          total = ground (arith, p.total, days_before_next y h, far);
        },
      )
]

-- Where the loop over the months ends.
pub record InMonth (year m time : ℕ) (m' left : ℕ) : Type 0 where
  pub month_le : m ≤ m'
  pub is_month : m' ≤ 12
  pub small : left < days_in_month m' year * 86400
  pub total : days_of_months year m' * 86400 + left ≡ days_of_months year m * 86400 + time

before_december_seconds :
    (year m time : ℕ)
    → m ≤ 12
    → days_of_months year m * 86400 + time < days_in_year year * 86400
    → days_in_month m year * 86400 ≤ time
    → m < 12
before_december_seconds year m time b l far =
    before_december year m (time / 86400) b (omega (arith, l)) (omega (arith, far))

pub month_loop_lem :
    (fuel year m time : ℕ)
    → 1 ≤ m
    → m ≤ 12
    → m + fuel ≡ 13
    → days_of_months year m * 86400 + time < days_in_year year * 86400
    → (m' : ℕ) × (left : ℕ) × (month_loop fuel year m time ≡ some (m', left))
      × InMonth year m time m' left
unfolding month_loop
month_loop_lem zero year m time h b k l = absurd (omega arith)
month_loop_lem (suc fuel) year m time h b k l =
    elim (Bool-cases (ltb time (days_in_month m year * 86400))) [
      | inl short ↦ (
        m,
        time,
        ground (arith, short),
        record {
          month_le = omega arith;
          is_month = omega arith;
          small = ground arith;
          total = refl;
        },
      )
      | inr long ↦
          let next : (m + 1) % 256 ≡ m + 1 = omega arith in
          let spent = days_in_month m year * 86400 in
          let far : spent ≤ time = ground (arith, long) in
          let below = before_december_seconds year m time b l far in
          let next_month = months_next year m h below in
          let (m', left, e, p) =
            month_loop_lem fuel year (m + 1) (time - spent) (omega arith) (omega arith)
              (omega arith) (omega (arith, next_month, far, l)) in
          (
            m',
            left,
            ground (arith, long, next, e),
            record {
              month_le = omega (arith, p.month_le);
              is_month = p.is_month;
              small = p.small;
              total = omega (arith, p.total, next_month, far);
            },
          )
    ]
