-- ===== src/Time/Order.antt =====
-- Dates in order: the days of the months and of the years add up, so an instant determines its date.
use ultra_os.Common.{ℕ, zero, suc, ◌+◌, ◌-◌, ◌*◌, ◌≤◌, ◌<◌, ◌≡◌, sym, subst, ap, ap₂, ◌∙◌, arith}
use native.Mathlib.Decide.{ℕ_discrete, dec_lt}
use ultra_os.Time.{HumanReadable, days_in_month}
use ultra_os.Time.Calendar.{days_in_year, days_before, days_of_months, months_next, months_year}
use ultra_os.Time.Loops.{days_before_next}

-- A date and a time of day from 1970 on.
pub record IsDate (h : HumanReadable) : Type 0 where
  pub year_ge : 1970 ≤ h.year
  pub year_lt : h.year < 65536
  pub month_ge : 1 ≤ h.month
  pub month_le : h.month ≤ 12
  pub day_ge : 1 ≤ h.day
  pub day_le : h.day ≤ days_in_month h.month h.year
  pub hour_lt : h.hour < 24
  pub minute_lt : h.minute < 60
  pub second_lt : h.second < 60

-- The seconds since the epoch, by the reference counts of days.
abbrev pub instant : HumanReadable → ℕ
instant h =
    (days_before h.year + days_of_months h.year h.month + (h.day - 1)) * 86400
    + h.hour * 3600
    + h.minute * 60
    + h.second

months_suc :
    (year m : ℕ)
    → 1 ≤ m
    → m < 12
    → days_of_months year (suc m) ≡ days_of_months year m + days_in_month m year
months_suc year m h k = ap (days_of_months year) (omega arith) ∙ months_next year m h k

months_mono :
    (year m m' : ℕ)
    → 1 ≤ m
    → m < m'
    → m' ≤ 12
    → days_of_months year m + days_in_month m year ≤ days_of_months year m'
months_mono year m zero h k l = absurd (omega arith)
months_mono year m (suc m') h k l = elim (ℕ_discrete m m') [
  | yes e ↦
      subst (λ x. days_of_months year x + days_in_month x year ≤ days_of_months year (suc m'))
        (sym e) (omega (arith, months_suc year m' (omega arith) (omega arith)))
  | no ne ↦ omega (
    arith,
    months_mono year m m' h (omega arith) (omega arith),
    months_suc year m' (omega arith) (omega arith),
  )
]

pub months_fit :
    (year m : ℕ) → 1 ≤ m → m ≤ 12 → days_of_months year m + days_in_month m year ≤ days_in_year year
unfolding days_in_month
months_fit year m h k = elim (ℕ_discrete m 12) [
  | yes e ↦
      subst (λ x. days_of_months year x + days_in_month x year ≤ days_in_year year) (sym e)
        (omega (arith, months_year year))
  | no ne ↦ omega (arith, months_mono year m 12 h (omega arith) (omega arith), months_year year)
]

years_mono : (y y' : ℕ) → 1970 ≤ y → y < y' → days_before y + days_in_year y ≤ days_before y'
years_mono y zero h k = absurd (omega arith)
years_mono y (suc y') h k = elim (ℕ_discrete y y') [
  | yes e ↦
      subst (λ x. days_before x + days_in_year x ≤ days_before (suc y')) (sym e)
        (omega (arith, days_before_next y' (omega arith)))
  | no ne ↦ omega (arith, years_mono y y' h (omega arith), days_before_next y' (omega arith))
]

-- The instant of a date lies within its day, its month and its year.
pub within_month :
    (h : HumanReadable)
    → IsDate h
    → (instant h
        < (days_before h.year + days_of_months h.year h.month + days_in_month h.month h.year)
          * 86400)
      × ((days_before h.year + days_of_months h.year h.month) * 86400 ≤ instant h)
within_month h d = (omega (arith, d), omega arith)

same_year :
    (h h' : HumanReadable) → IsDate h → IsDate h' → instant h ≡ instant h' → h.year ≤ h'.year
same_year h h' d d' e = elim (dec_lt h'.year h.year) [
  | yes lt ↦ absurd (
      omega (
        arith,
        e,
        years_mono h'.year h.year d'.year_ge lt,
        within_month h d,
        within_month h' d',
        months_fit h'.year h'.month d'.month_ge d'.month_le,
      ))
  | no p ↦ omega arith
]

same_month :
    (h h' : HumanReadable)
    → IsDate h
    → IsDate h'
    → instant h ≡ instant h'
    → h.year ≡ h'.year
    → h.month ≤ h'.month
same_month h h' d d' e y = elim (dec_lt h'.month h.month) [
  | yes lt ↦ absurd (
      omega (
        arith,
        e,
        months_mono h'.year h'.month h.month d'.month_ge lt d.month_le,
        within_month h d,
        within_month h' d',
        ap days_before y,
        ap (λ x. days_of_months x h.month) y,
      ))
  | no p ↦ omega arith
]

same_rest :
    (h h' : HumanReadable)
    → IsDate h
    → IsDate h'
    → instant h ≡ instant h'
    → h.year ≡ h'.year
    → h.month ≡ h'.month
    → h ≡ h'
same_rest h h' d d' e y m =
    let q = ap₂ (λ a b. (days_before a + days_of_months a b) * 86400) y m in
    let day : h.day ≡ h'.day = omega (arith, e, q, d, d') in
    let hour : h.hour ≡ h'.hour = omega (arith, e, q, d, d') in
    let minute : h.minute ≡ h'.minute = omega (arith, e, q, d, d') in
    let second : h.second ≡ h'.second = omega (arith, e, q, d, d') in
    ground (arith, y, m, day, hour, minute, second)

pub instant_injective :
    (h h' : HumanReadable) → IsDate h → IsDate h' → instant h ≡ instant h' → h ≡ h'
instant_injective h h' d d' e =
    let y : h.year ≡ h'.year = omega (arith, same_year h h' d d' e, same_year h' h d' d (sym e)) in
    let m : h.month ≡ h'.month =
      omega (arith, same_month h h' d d' e y, same_month h' h d' d (sym e) (sym y)) in
    same_rest h h' d d' e y m
