-- ===== src/Time/Tests.antt =====
-- Dates and instants, and the theorems at them.
use ultra_os.Common.{ℕ, ◌+◌, ◌*◌, ◌/◌, ◌<◌, ◌≡◌, some, ok, arith}
use ultra_os.Time.{
  HumanReadable, Clock, to_unix, from_unix, on_timer_tick, days_in_month, is_leap_year,
}
use ultra_os.Time.Order.{IsDate}
use ultra_os.Time.RoundTrip.{from_unix-to_unix, to_unix-from_unix}
use ultra_os.Time.Clocks.{on_timer_tick_exact}

-- The leap day of 2020, a second before midnight.
abbrev leap_day : HumanReadable
leap_day = record { year = 2020; month = 2; day = 29; hour = 23; minute = 59; second = 59 }

leap_day-IsDate : IsDate leap_day
unfolding days_in_month is_leap_year
leap_day-IsDate = record {
  year_ge = omega arith;
  year_lt = omega arith;
  month_ge = omega arith;
  month_le = omega arith;
  day_ge = omega arith;
  day_le = omega arith;
  hour_lt = omega arith;
  minute_lt = omega arith;
  second_lt = omega arith;
}

from_unix-to_unix_example :
    (h : HumanReadable) × (from_unix 1583020799 ≡ some h) × IsDate h × (to_unix h ≡ ok 1583020799)
from_unix-to_unix_example = from_unix-to_unix 1583020799 (omega arith)

to_unix-from_unix_example : (t : ℕ) × (to_unix leap_day ≡ ok t) × (from_unix t ≡ some leap_day)
to_unix-from_unix_example = to_unix-from_unix leap_day leap_day-IsDate (omega arith)

abbrev clock : Clock
clock = record { ns = 999999999; now = 1583020799 }

on_timer_tick_exact_example :
    ((on_timer_tick 1000 clock).ns < 1000000000)
    × ((on_timer_tick 1000 clock).now * 1000000000 + (on_timer_tick 1000 clock).ns
        ≡ clock.now * 1000000000 + clock.ns + 1000000000 / 1000)
on_timer_tick_exact_example =
    on_timer_tick_exact 1000 clock (omega arith) (omega arith) (omega arith)
