-- ===== src/Timer/Tests.antt =====
-- A timer in its first seconds, and one in front of the wrap of the low word.
use waffle_os.Common.{◌≡◌, none, some, arith}
use waffle_os.Timer.{Timer, ticks, sleep_millis}
use waffle_os.Timer.Ticks.{start, counted, ticks-counted, sleep_millis-ends, sleep_millis-late}

abbrev one_minute : Timer
one_minute = record { milliseconds_low = 61230; milliseconds_high = 0 }

ticks-counted_example :
    ticks 429496730 start ≡ record { milliseconds_low = 4; milliseconds_high = 0 }
ticks-counted_example = ticks-counted 429496730

sleep_millis-ends_example :
    sleep_millis 30 25 one_minute
    ≡ some (record { milliseconds_low = 61260; milliseconds_high = 0 })
sleep_millis-ends_example =
    sleep_millis-ends 30 25 one_minute (omega arith) (omega arith) (omega arith)

sleep_millis-late_example : sleep_millis 1000000 10 (counted 429496729) ≡ none
sleep_millis-late_example =
    sleep_millis-late 1000000 429496729 10 (omega arith) (omega arith) (omega arith) (omega arith)
