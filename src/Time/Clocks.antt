-- ===== src/Time/Clocks.antt =====
-- `Time::on_timer_tick`: the clock neither loses nor gains time.
use ultra_os.Common.{ℕ, ◌+◌, ◌*◌, ◌/◌, ◌^◌, ◌≤◌, ◌<◌, ◌≡◌, arith}
use ultra_os.Time.{Clock, on_timer_tick}

-- A tick of a timer of a frequency that is not 0 leaves less than a second in the count of nanoseconds, and
-- the time in nanoseconds goes up by exactly the period, as long as the count of
-- seconds stays below 2 ^ 64 - 1.
pub on_timer_tick_exact :
    (frequency : ℕ) (c : Clock)
    → 0 < frequency
    → c.ns < 1000000000
    → c.now + 2 < 2 ^ 64
    → let c' = on_timer_tick frequency c in
      (c'.ns < 1000000000)
      × (c'.now * 1000000000 + c'.ns ≡ c.now * 1000000000 + c.ns + 1000000000 / frequency)
unfolding on_timer_tick
on_timer_tick_exact frequency c f h k =
    let period : 1000000000 / frequency ≤ 1000000000 = grind arith in ground (arith, period)
