-- ===== src/Timer/Clock.antt =====
-- The clock of source/kernel/timers/timer.c: the seconds since the start and their text.
use waffle_os.Common.{
  ℕ, ◌+◌, ◌*◌, ◌-◌, ◌/◌, ◌%◌, ◌<◌, ◌≡◌, arith, List, [], ◌∷◌, Option, none, some,
}
use waffle_os.Timer.{Timer, get_seconds, systime_chars, get_systime_string}

abbrev pub two : ℕ → ℕ → ℕ
two a b = (a - 48) * 10 + (b - 48)

-- A reader of the text: hours, minutes and seconds between colons, and the NUL at the end.
abbrev pub read_time : List ℕ → Option (ℕ × ℕ × ℕ)
read_time (a ∷ b ∷ colon ∷ c ∷ d ∷ colon' ∷ e ∷ f ∷ nul ∷ []) = some (two a b, two c d, two e f)
read_time l = none

two-two_digits : (n : ℕ) → n < 100 → two ((48 + n / 10) % 256) (48 + n % 10) ≡ n
two-two_digits n small = omega arith

-- Within the first round of the low word, the text of the clock reads as the hours, minutes and
-- seconds of the tick count, if less than 100 hours have passed.
get_systime_string-read_time :
    (t : Timer)
    → t.milliseconds_high ≡ 0
    → t.milliseconds_low / 1000 < 360000
    → read_time (get_systime_string t)
      ≡ some (
        t.milliseconds_low / 3600000,
        t.milliseconds_low / 60000 % 60,
        t.milliseconds_low / 1000 % 60,
      )
unfolding get_systime_string get_seconds systime_chars
get_systime_string-read_time t high small =
    let seconds = t.milliseconds_low / 1000 in
    let counted_seconds : get_seconds t ≡ seconds = rw high (omega arith) in
    let hours : seconds / 3600 ≡ t.milliseconds_low / 3600000 = omega arith in
    let minutes : seconds % 3600 / 60 ≡ t.milliseconds_low / 60000 % 60 = omega arith in
    rw (
      counted_seconds,
      two-two_digits (seconds / 3600) (omega arith),
      two-two_digits (seconds % 3600 / 60) (omega arith),
      two-two_digits (seconds % 60) (omega arith),
      hours,
      minutes,
    )
