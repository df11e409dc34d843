-- ===== src/Time/RoundTrip.antt =====
-- `Time::from_unix` and `Time::to_unix` undo each other.
use ultra_os.Common.{
  ℕ, ◌+◌, ◌-◌, ◌*◌, ◌/◌, ◌%◌, ◌^◌, ◌≤◌, ◌<◌, ◌≡◌, refl, ap, ◌∙◌, ◌==◌, ltb, if◌then◌else◌, some,
  arith, ok,
}
use ultra_os.Time.{
  HumanReadable, days_in_month, year_loop, month_loop, seconds_in_year, split_time, from_unix,
  to_unix, fall_through,
}
use ultra_os.Time.Calendar.{
  days_before, days_before-le, years_before, days_of_months, months_before, days_of_months-le,
  days_in_month-positive,
}
use ultra_os.Time.Loops.{year_loop_lem, month_loop_lem}
use ultra_os.Time.Order.{IsDate, instant, within_month, instant_injective}

to_unix_lem : (h : HumanReadable) → IsDate h → to_unix h ≡ ok (instant h)
unfolding to_unix
to_unix_lem h d =
    rw
      (
        years_before h.year (omega (arith, d.year_ge)) d.year_lt,
        months_before h.year h.month d.month_ge d.month_le,
      )
      (ap ok (
        omega (
          arith,
          days_before-le h.year,
          days_of_months-le h.year h.month,
          d,
          (days_in_month-positive h.year h.month d.month_ge d.month_le).1,
        )))

-- What the branches on 0 leave is the remainder.
days_off :
    (time : ℕ)
    → time < 31 * 86400
    → let day = (time / 86400 + 1) % 256 in
      (day ≡ time / 86400 + 1)
      × ((if ltb 1 day then time - (day - 1) * 86400 else time) ≡ time % 86400)
days_off time h = ground arith

hours_off :
    (time : ℕ)
    → time < 86400
    → let hour = time / 3600 % 256 in
      (hour ≡ time / 3600) × ((if hour == 0 then time else time - hour * 3600) ≡ time % 3600)
hours_off time h = ground arith

minutes_off :
    (time : ℕ)
    → time < 3600
    → let minute = time / 60 % 256 in
      (minute ≡ time / 60) × ((if minute == 0 then time else time - minute * 60) ≡ time % 60)
minutes_off time h = ground arith

split_time_lem :
    (year month time : ℕ)
    → 1970 ≤ year
    → year < 65536
    → 1 ≤ month
    → month ≤ 12
    → time < days_in_month month year * 86400
    → IsDate (split_time year month time)
      × (instant (split_time year month time)
          ≡ (days_before year + days_of_months year month) * 86400 + time)
unfolding split_time
split_time_lem year month time a b c d e =
    let len = days_in_month-positive year month c d in
    let (d1, d2) = days_off time (omega (arith, len)) in
    let (h1, h2) = hours_off (time % 86400) (omega arith) in
    let (m1, m2) = minutes_off (time % 86400 % 3600) (omega arith) in
    rw (d2, h2, m2, d1, h1, m1)
      (
        record {
          year_ge = a;
          year_lt = b;
          month_ge = c;
          month_le = d;
          day_ge = omega arith;
          day_le = omega (arith, e);
          hour_lt = omega arith;
          minute_lt = omega arith;
          second_lt = omega arith;
        },
        omega arith,
      )

first_month : (y : ℕ) → days_of_months y 1 ≡ 0
unfolding fall_through
first_month y = refl

days_before_epoch : days_before 1970 ≡ 0
unfolding days_before
days_before_epoch = ground arith

from_unix_ends :
    (t y left m rest : ℕ)
    → year_loop (t / seconds_in_year + 1) 1970 t ≡ some (y, left)
    → month_loop 12 y 1 left ≡ some (m, rest)
    → from_unix t ≡ some (split_time y m rest)
unfolding from_unix
from_unix_ends t y left m rest e e' = rw (from_unix, e, e') refl

from_unix_lem :
    (t : ℕ) → t < 2 ^ 40 → (h : HumanReadable) × (from_unix t ≡ some h) × IsDate h × (instant h ≡ t)
from_unix_lem t k =
    let (y, left, e, p) =
      year_loop_lem (t / 31536000 + 1) 1970 t (omega arith) (omega arith) (omega arith) in
    let (m, rest, e', p') =
      month_loop_lem 12 y 1 left (omega arith) (omega arith) (omega arith)
        (omega (arith, p.small, first_month y)) in
    let (date, sum) =
      split_time_lem y m rest p.year_le p.in_range (omega (arith, p'.month_le)) p'.is_month
        p'.small in
    (
      split_time y m rest,
      from_unix_ends t y left m rest e e',
      date,
      omega (arith, sum, p.total, p'.total, days_before_epoch, first_month y),
    )

-- Every time before 2 ^ 40 seconds from the epoch converts to a date that exists, and that date
-- converts back to it: the loops end, and no field overflows.
pub from_unix-to_unix :
    (t : ℕ)
    → t < 2 ^ 40
    → (h : HumanReadable) × (from_unix t ≡ some h) × IsDate h × (to_unix h ≡ ok t)
from_unix-to_unix t k = let (h, e, d, i) = from_unix_lem t k in (h, e, d, to_unix_lem h d ∙ ap ok i)

-- Every date from 1970 up to before 30000 converts to a time that converts back to exactly that date.
pub to_unix-from_unix :
    (h : HumanReadable)
    → IsDate h
    → h.year < 30000
    → (t : ℕ) × (to_unix h ≡ ok t) × (from_unix t ≡ some h)
to_unix-from_unix h d y =
    let small : instant h < 2 ^ 40 = omega (
      arith,
      within_month h d,
      days_before-le h.year,
      days_of_months-le h.year h.month,
      days_in_month-positive h.year h.month d.month_ge d.month_le,
      d,
    ) in
    let (h', e, d', i) = from_unix_lem (instant h) small in
    (instant h, to_unix_lem h d, e ∙ ap some (instant_injective h' h d' d i))
