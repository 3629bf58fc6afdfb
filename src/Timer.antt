-- ===== src/Timer.antt =====
-- source/kernel/timers/timer.c: the tick count, sleeping and the time since the start.
pub mod Ticks
pub mod Clock
mod Tests
use waffle_os.Common.{
  ℕ, zero, suc, ◌+◌, ◌*◌, ◌/◌, ◌%◌, ◌^◌, Bool, true, false, ◌==◌, ltb, if◌then◌else◌, List, [], ◌∷◌,
  Option, none, some, add32,
}

pub record Timer : Type 0 where
  pub milliseconds_low : ℕ
  pub milliseconds_high : ℕ

unfoldable pub timer_handler : Timer → Timer
timer_handler t =
    let low = add32 t.milliseconds_low 10 in
    record {
      milliseconds_low = low;
      milliseconds_high = if low == 0 then add32 t.milliseconds_high 1 else t.milliseconds_high;
    }

-- A number of timer interrupts.
unfoldable pub ticks : ℕ → Timer → Timer
unfolding timer_handler
ticks zero t = t
ticks (suc n) t = timer_handler (ticks n t)

-- `end_low` and `end_high` for a sleep that starts at `t`.
unfoldable pub sleep_end : ℕ → Timer → Timer
sleep_end duration t =
    let end_low = add32 t.milliseconds_low duration in
    record {
      milliseconds_low = end_low;
      milliseconds_high =
          add32 t.milliseconds_high (if ltb end_low t.milliseconds_low then 1 else 0);
    }

-- The condition of the loop that sleeps.
unfoldable pub before : Timer → Timer → Bool
before t end =
    if ltb t.milliseconds_high end.milliseconds_high
    then true
    else if t.milliseconds_high == end.milliseconds_high
    then ltb t.milliseconds_low end.milliseconds_low
    else false

-- Each round of the loop halts up to the next timer interrupt. `none` means that the fuel ran out.
unfoldable pub sleep_until : ℕ → Timer → Timer → Option Timer
unfolding timer_handler before
sleep_until zero end t = none
sleep_until (suc fuel) end t =
    let rest = sleep_until fuel end (timer_handler t) in if before t end then rest else some t

unfoldable pub sleep_millis : ℕ → ℕ → Timer → Option Timer
unfolding sleep_until sleep_end
sleep_millis fuel duration t = sleep_until fuel (sleep_end duration t) t

unfoldable pub get_seconds : Timer → ℕ
get_seconds t =
    let seconds = add32 (t.milliseconds_high * 4294967 % 2 ^ 32) (t.milliseconds_low / 1000) in
    add32 seconds (t.milliseconds_high * 37 % 2 ^ 32 / 125)

-- `'0' + n / 10` and `'0' + n % 10`, as characters.
abbrev pub two_digits : ℕ → List ℕ → List ℕ
two_digits n rest = ((48 + n / 10) % 256) ∷ (48 + n % 10) ∷ rest

unfoldable pub systime_chars : ℕ → List ℕ
systime_chars seconds =
    two_digits (seconds / 3600)
      (58 ∷ two_digits (seconds % 3600 / 60) (58 ∷ two_digits (seconds % 60) (0 ∷ [])))

unfoldable pub get_systime_string : Timer → List ℕ
unfolding get_seconds systime_chars
get_systime_string t = systime_chars (get_seconds t)
