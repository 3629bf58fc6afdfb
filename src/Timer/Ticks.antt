-- ===== src/Timer/Ticks.antt =====
-- The tick count of source/kernel/timers/timer.c, and how long a sleep lasts.
use waffle_os.Common.{
  ℕ, zero, suc, ◌+◌, ◌*◌, ◌-◌, ◌/◌, ◌%◌, ◌^◌, ◌≤◌, ◌<◌, ◌≡◌, refl, arith, true, false, none, some,
  add32, ◌==◌, ltb, if◌then◌else◌, Bool-cases, ltb→lt, not-ltb→le, inl, inr,
}
use waffle_os.Timer.{Timer, timer_handler, ticks, sleep_end, before, sleep_until, sleep_millis}

abbrev pub start : Timer
start = record { milliseconds_low = 0; milliseconds_high = 0 }

-- The count after `n` interrupts.
abbrev pub counted : ℕ → Timer
counted n = record { milliseconds_low = 10 * n % 2 ^ 32; milliseconds_high = n / 2 ^ 31 % 2 ^ 32 }

low-wraps : (n : ℕ) → add32 (10 * n % 2 ^ 32) 10 ≡ 10 * suc n % 2 ^ 32
low-wraps n = omega arith

high-wraps :
    (n : ℕ)
    → (if add32 (10 * n % 2 ^ 32) 10 == 0
        then add32 (n / 2 ^ 31 % 2 ^ 32) 1
        else n / 2 ^ 31 % 2 ^ 32)
      ≡ suc n / 2 ^ 31 % 2 ^ 32
high-wraps n = ground arith

timer_handler-counted : (n : ℕ) → timer_handler (counted n) ≡ counted (suc n)
unfolding timer_handler
timer_handler-counted n =
    λ i. record { milliseconds_low = low-wraps n i; milliseconds_high = high-wraps n i }

-- After `n` timer interrupts from the start, the low word is 10 * n modulo 2 ^ 32, and the high
-- word is the number of full rounds of 2 ^ 31 interrupts: the low word wraps five times in such a
-- round, and only the last of the five carries.
pub ticks-counted : (n : ℕ) → ticks n start ≡ counted n
unfolding ticks
ticks-counted zero = refl
ticks-counted (suc n) = rw (ticks-counted n, timer_handler-counted n)

abbrev at : ℕ → ℕ → Timer
at low high = record { milliseconds_low = low; milliseconds_high = high }

timer_handler_plain :
    (low high : ℕ) → low + 10 < 2 ^ 32 → timer_handler (at low high) ≡ at (low + 10) high
unfolding timer_handler
timer_handler_plain low high small =
    let next : add32 low 10 ≡ low + 10 = omega arith in
    let same : (if (low + 10) == 0 then add32 high 1 else high) ≡ high = ground arith in
    rw (next, same) refl

before_same_high : (low end high : ℕ) → before (at low high) (at end high) ≡ ltb low end
unfolding before
before_same_high low end high = ground arith

before_next_high : (low end : ℕ) → before (at low 0) (at end 1) ≡ true
unfolding before
before_next_high low end = refl

sleep_until-ends :
    (fuel low high end : ℕ)
    → low ≤ end + 10
    → end + 20 < 2 ^ 32
    → end - low < fuel
    → sleep_until fuel (at end high) (at low high)
      ≡ some (at (low + (end - low + 9) / 10 * 10) high)
unfolding sleep_until
sleep_until-ends zero low high end le small enough = absurd (omega (arith, enough))
sleep_until-ends (suc fuel) low high end le small enough = elim (Bool-cases (ltb low end)) [
  | inl waits ↦
      let lt = ltb→lt low end waits in
      let rest = sleep_until-ends fuel (low + 10) high end (omega arith) small (omega arith) in
      let same : low + 10 + (end - (low + 10) + 9) / 10 * 10 ≡ low + (end - low + 9) / 10 * 10 =
        omega arith in
      rw (
        before_same_high low end high,
        waits,
        timer_handler_plain low high (omega arith),
        rest,
        same,
      )
  | inr ends ↦
      let ge = not-ltb→le low end ends in
      let same : low + (end - low + 9) / 10 * 10 ≡ low = omega arith in
      rw (before_same_high low end high, ends, same)
]

-- A sleep whose end does not come near the wrap of the low word lasts as many timer interrupts as
-- its duration has begun tens of milliseconds, and then returns: one round of fuel more than the
-- duration is enough.
pub sleep_millis-ends :
    (fuel duration : ℕ) (t : Timer)
    → t.milliseconds_low + duration + 20 < 2 ^ 32
    → t.milliseconds_high < 2 ^ 32
    → duration < fuel
    → sleep_millis fuel duration t
      ≡ some (record t { milliseconds_low = t.milliseconds_low + (duration + 9) / 10 * 10 })
unfolding sleep_millis sleep_end
sleep_millis-ends fuel duration t small high enough =
    let low = t.milliseconds_low in
    let end : add32 low duration ≡ low + duration = omega arith in
    let later : ltb (low + duration) low ≡ false = ground arith in
    let same_high : add32 t.milliseconds_high 0 ≡ t.milliseconds_high = omega arith in
    let length : low + duration - low ≡ duration = omega arith in
    let ends =
      sleep_until-ends fuel low t.milliseconds_high (low + duration) (omega arith) small
        (omega arith) in
    rw (end, later, same_high, ends, length)

still_waiting :
    (fuel n end : ℕ) → n + fuel ≤ 2 ^ 31 → sleep_until fuel (at end 1) (counted n) ≡ none
unfolding sleep_until
still_waiting zero n end le = refl
still_waiting (suc fuel) n end le =
    let first_round : n / 2 ^ 31 % 2 ^ 32 ≡ 0 = omega arith in
    let waits : before (counted n) (at end 1) ≡ true =
      rw first_round (before_next_high (10 * n % 2 ^ 32) end) in
    rw (waits, timer_handler-counted n) (still_waiting fuel (suc n) end (omega arith))

-- A sleep that starts within the first 2 ^ 31 interrupts and whose end wraps the low word does not
-- return before the 2 ^ 31st interrupt, however short its duration: it waits for the high word.
pub sleep_millis-late :
    (fuel n duration : ℕ)
    → duration < 2 ^ 32
    → 2 ^ 32 ≤ 10 * n % 2 ^ 32 + duration
    → n + fuel ≤ 2 ^ 31
    → n < 2 ^ 31
    → sleep_millis fuel duration (counted n) ≡ none
unfolding sleep_millis sleep_end
sleep_millis-late fuel n duration small wraps within early =
    let end = add32 (10 * n % 2 ^ 32) duration in
    let carries : ltb end (10 * n % 2 ^ 32) ≡ true = ground arith in
    let first_round : n / 2 ^ 31 % 2 ^ 32 ≡ 0 = omega arith in
    rw (carries, first_round) (rw⁻¹ first_round (still_waiting fuel n end within))
