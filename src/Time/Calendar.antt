-- ===== src/Time/Calendar.antt =====
-- The days of the years and of the months.
use ultra_os.Common.{
  ℕ, zero, suc, ◌+◌, ◌-◌, ◌*◌, ◌%◌, ◌^◌, ◌≤◌, ◌<◌, ◌≡◌, subst, ◌∙◌, leb, if◌then◌else◌, arith, ok,
}
use native.Mathlib.Decide.{ℕ_discrete}
use ultra_os.Time.{
  epoch_year, is_leap_year, years_loop, days_in_years_since_epoch_before, case_days, fall_through,
  days_in_months_since_start_of, days_in_month,
}

abbrev pub days_in_year : ℕ → ℕ
days_in_year y = if is_leap_year y then 366 else 365

-- The days of the years from the epoch to before a year.
unfoldable pub days_before : ℕ → ℕ
days_before zero = 0
days_before (suc y) = if leb epoch_year y then days_before y + days_in_year y else 0

pub days_before-le : (y : ℕ) → days_before y ≤ y * 366
unfolding days_before
days_before-le zero = omega arith
days_before-le (suc y) = ground (arith, days_before-le y)

years_loop_lem :
    (y total : ℕ)
    → total + y * 366 + 366 < 2 ^ 32
    → years_loop y total ≡ total + days_before (suc y)
unfolding years_loop days_before
years_loop_lem zero total h = ground arith
years_loop_lem (suc y) total h =
    ground (arith, years_loop_lem y ((total + days_in_year (suc y)) % 2 ^ 32))

pub years_before : (y : ℕ) → 1 ≤ y → y < 65536 → days_in_years_since_epoch_before y ≡ days_before y
unfolding days_in_years_since_epoch_before
years_before zero h k = absurd (omega arith)
years_before (suc y) h k =
    let e : (suc y + 65535) % 65536 ≡ y = omega arith in
    rw e (years_loop_lem y 0 (omega arith) ∙ omega arith)

-- The days of the months before a month.
abbrev pub days_of_months : ℕ → ℕ → ℕ
days_of_months year m = fall_through year (m - 1)

pub months_before :
    (year m : ℕ)
    → 1 ≤ m
    → m ≤ 12
    → days_in_months_since_start_of year m ≡ ok (days_of_months year m)
unfolding days_in_months_since_start_of
months_before year m h k = let e : (m + 255) % 256 ≡ m - 1 = omega arith in rw e (ground arith)

-- The two tables of the lengths of the months agree.
cases_agree : (year m : ℕ) → m < 12 → case_days year m ≡ days_in_month m year
unfolding case_days days_in_month
cases_agree year m k = ground arith

pub months_next :
    (year m : ℕ)
    → 1 ≤ m
    → m < 12
    → days_of_months year (m + 1) ≡ days_of_months year m + days_in_month m year
unfolding fall_through
months_next year zero h k = absurd (omega arith)
months_next year (suc m) h k =
    let e : suc m + 1 - 1 ≡ suc m = omega arith in
    let e' : suc m - 1 ≡ m = omega arith in rw (e, e') (omega (arith, cases_agree year (suc m) k))

pub months_year : (year : ℕ) → days_of_months year 12 + 31 ≡ days_in_year year
unfolding fall_through case_days
months_year year = ground arith

pub days_in_month-positive :
    (year m : ℕ) → 1 ≤ m → m ≤ 12 → (28 ≤ days_in_month m year) × (days_in_month m year ≤ 31)
unfolding days_in_month
days_in_month-positive year m h k = ground arith

fall_through-le : (year m : ℕ) → fall_through year m ≤ m * 31
unfolding fall_through case_days
fall_through-le year zero = omega arith
fall_through-le year (suc m) = ground (arith, fall_through-le year m)

pub days_of_months-le : (year m : ℕ) → days_of_months year m ≤ m * 31
days_of_months-le year m = omega (arith, fall_through-le year (m - 1))

-- A day of the year that the month does not reach lies after a month before December.
pub before_december :
    (year m days : ℕ)
    → m ≤ 12
    → days_of_months year m + days < days_in_year year
    → days_in_month m year ≤ days
    → m < 12
unfolding days_in_month
before_december year m days h k l = elim (ℕ_discrete m 12) [
  | yes e ↦
      let twelve : days_of_months year 12 + days < days_in_year year =
        subst (λ x. days_of_months year x + days < days_in_year year) e k in
      let far : days_in_month 12 year ≤ days = subst (λ x. days_in_month x year ≤ days) e l in
      absurd (omega (arith, months_year year, twelve, far))
  | no ne ↦ omega arith
]
