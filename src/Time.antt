-- ===== src/Time.antt =====
-- Kernel/Time/Time.{h,cpp}: the calendar. Years are `u16`, months and the other fields `u8`, counts of
-- days `u32`, and times `u64`, each with its wrap where an operation can leave the range.
pub mod Calendar
pub mod Loops
pub mod Order
pub mod RoundTrip
pub mod Clocks
mod Tests
use ultra_os.Common.{
  ℕ, zero, suc, ◌+◌, ◌-◌, ◌*◌, ◌/◌, ◌%◌, ◌^◌, Bool, true, false, ◌==◌, ltb, leb, if◌then◌else◌, not,
  ◌&&◌, Option, none, some, Result, Fault, assertion, guard, ok, err, ◌>>=◌, ◌>>◌, sub64,
}

abbrev pub seconds_in_day : ℕ
seconds_in_day = 86400

abbrev pub seconds_in_hour : ℕ
seconds_in_hour = 3600

abbrev pub seconds_in_minute : ℕ
seconds_in_minute = 60

abbrev pub nanoseconds_in_second : ℕ
nanoseconds_in_second = 1000000000

abbrev pub epoch_year : ℕ
epoch_year = 1970

pub record HumanReadable : Type 0 where
  pub year : ℕ
  pub month : ℕ
  pub day : ℕ
  pub hour : ℕ
  pub minute : ℕ
  pub second : ℕ

unfoldable pub is_leap_year : ℕ → Bool
is_leap_year year =
    if not (year % 4 == 0)
    then false
    else if not (year % 100 == 0)
    then true
    else if not (year % 400 == 0)
    then false
    else true

-- The loop, from `current_year` down.
unfoldable pub years_loop : ℕ → ℕ → ℕ
years_loop zero days_total = days_total
years_loop (suc y) days_total =
    let rest = years_loop y ((days_total + (if is_leap_year (suc y) then 366 else 365)) % 2 ^ 32) in
    if leb epoch_year (suc y) then rest else days_total

unfoldable pub days_in_years_since_epoch_before : ℕ → ℕ
unfolding years_loop
days_in_years_since_epoch_before current_year = years_loop ((current_year + 65535) % 65536) 0

-- What one case of the switch adds, by the number of its month.
unfoldable pub case_days : ℕ → ℕ → ℕ
case_days year month =
    if month == 11
    then 30
    else if month == 10
    then 31
    else if month == 9
    then 30
    else if month == 8
    then 31
    else if month == 7
    then 31
    else if month == 6
    then 30
    else if month == 5
    then 31
    else if month == 4
    then 30
    else if month == 3
    then 31
    else if month == 2
    then (if is_leap_year year then 29 else 28)
    else if month == 1
    then 31
    else 0

-- The cases of the switch from a month's on, each falling through to the month before.
unfoldable pub fall_through : ℕ → ℕ → ℕ
unfolding case_days
fall_through year zero = 0
fall_through year (suc m) = case_days year (suc m) + fall_through year m

-- A number that is no month takes no case.
unfoldable pub days_in_months_since_start_of : ℕ → ℕ → Result Fault ℕ
unfolding fall_through
days_in_months_since_start_of year current = do
  let prior = (current + 255) % 256
  guard (not (prior == 12)) assertion
  ok (if ltb prior 12 then fall_through year prior else 0)

unfoldable pub days_in_month : ℕ → ℕ → ℕ
days_in_month month year =
    if month == 12
    then 31
    else if month == 11
    then 30
    else if month == 10
    then 31
    else if month == 9
    then 30
    else if month == 8
    then 31
    else if month == 7
    then 31
    else if month == 6
    then 30
    else if month == 5
    then 31
    else if month == 4
    then 30
    else if month == 3
    then 31
    else if month == 2
    then (if is_leap_year year then 29 else 28)
    else if month == 1
    then 31
    else 0

-- The sum is a `u64`.
unfoldable pub to_unix : HumanReadable → Result Fault ℕ
to_unix time = do
  let years = days_in_years_since_epoch_before time.year
  months ← days_in_months_since_start_of time.year time.month
  ok (
      (years * seconds_in_day
        + months * seconds_in_day
        + sub64 time.day 1 * seconds_in_day
        + time.hour * seconds_in_hour
        + time.minute * seconds_in_minute
        + time.second)
      % 2 ^ 64)

abbrev pub seconds_in_year : ℕ
seconds_in_year = 86400 * 365

abbrev pub seconds_in_leap_year : ℕ
seconds_in_leap_year = 86400 * 366

-- `while (time >= seconds_in_year)`: the year, and the time that is left.
unfoldable pub year_loop : ℕ → ℕ → ℕ → Option (ℕ × ℕ)
year_loop zero year time = none
year_loop (suc fuel) year time =
    let is_leap = is_leap_year year in
    let rest =
      year_loop fuel ((year + 1) % 65536)
        (time - (if is_leap then seconds_in_leap_year else seconds_in_year)) in
    if ltb time seconds_in_year
    then some (year, time)
    else if is_leap && ltb time seconds_in_leap_year
    then some (year, time)
    else rest

-- The `for (;;)` over the months: the month, and the time that is left.
unfoldable pub month_loop : ℕ → ℕ → ℕ → ℕ → Option (ℕ × ℕ)
month_loop zero year month time = none
month_loop (suc fuel) year month time =
    let seconds_in_this_month = days_in_month month year * seconds_in_day in
    let rest = month_loop fuel year ((month + 1) % 256) (time - seconds_in_this_month) in
    if ltb time seconds_in_this_month then some (month, time) else rest

-- `(x.field - 1) * unit` and `x.field * unit` are taken off where they are not 0.
unfoldable pub split_time : ℕ → ℕ → ℕ → HumanReadable
split_time year month time =
    let day = (time / seconds_in_day + 1) % 256 in
    let time' = if ltb 1 day then time - (day - 1) * seconds_in_day else time in
    let hour = time' / seconds_in_hour % 256 in
    let time'' = if hour == 0 then time' else time' - hour * seconds_in_hour in
    let minute = time'' / seconds_in_minute % 256 in
    let time''' = if minute == 0 then time'' else time'' - minute * seconds_in_minute in
    record {
      year = year;
      month = month;
      day = day;
      hour = hour;
      minute = minute;
      second = time''' % 256;
    }

-- A year takes one round of the first loop, and there are twelve months at most.
unfoldable pub from_unix : ℕ → Option HumanReadable
from_unix time = elim (year_loop (time / seconds_in_year + 1) epoch_year time) [
  | none ↦ none
  | some (year, left) ↦ elim (month_loop 12 year 1 left) [
    | none ↦ none
    | some (month, rest) ↦ some (split_time year month rest)
  ]
]

-- `s_ns` and `s_now`.
pub record Clock : Type 0 where
  pub ns : ℕ
  pub now : ℕ

unfoldable pub check_if_second_passed : Clock → Clock
check_if_second_passed c =
    let seconds_passed = c.ns / nanoseconds_in_second in
    if seconds_passed == 0 then c else (record {
      ns = c.ns - seconds_passed * nanoseconds_in_second;
      now = (c.now + seconds_passed) % 2 ^ 64;
    })

-- `frequency` is `Timer::primary().current_frequency()`.
unfoldable pub on_timer_tick : ℕ → Clock → Clock
unfolding check_if_second_passed
on_timer_tick frequency c =
    check_if_second_passed (record c { ns = (c.ns + nanoseconds_in_second / frequency) % 2 ^ 64 })
