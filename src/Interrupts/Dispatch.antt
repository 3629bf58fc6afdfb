-- ===== src/Interrupts/Dispatch.antt =====
-- Registering a handler (source/kernel/core/isr.c) and the interrupts after it.
use Prim.Native.Nat.{bit_or}
use waffle_os.Common.{
  ℕ, ◌/◌, ◌%◌, ◌<◌, ◌≡◌, refl, Bool, true, false, ◌&&◌, ◌==◌, arith, every_under, every_under_lem,
  some, ==_refl,
}
use waffle_os.Interrupts.{
  IdtEntry, Idt, store_entry, enable_gate, Handlers, calls, isr_handler, isr_register_handler,
}
use waffle_os.Interrupts.Gates.{target}

-- The present bit of a gate's flags.
abbrev pub is_present : IdtEntry → Bool
is_present e = e.flags / 128 % 2 == 1

sets_bit : ℕ → Bool
sets_bit x = (bit_or x 0x80 / 128 % 2 == 1) && (bit_or x 0x80 % 128 == (x % 128))

every_sets_bit : every_under sets_bit 256 ≡ true
unfolding every_under sets_bit
every_sets_bit = refl

bit_or_present :
    (x : ℕ) → x < 256 → ((bit_or x 0x80 / 128 % 2 == 1) ≡ true) × (bit_or x 0x80 % 128 ≡ x % 128)
unfolding sets_bit
bit_or_present x h =
    let table = every_under_lem sets_bit 256 x h every_sets_bit in ground (arith, table)

isr_handler-some :
    (handlers : Handlers) (k handler : ℕ)
    → handlers k ≡ some handler
    → isr_handler handlers k ≡ calls handler
unfolding isr_handler
isr_handler-some handlers k handler e = rw (isr_handler, e) refl

isr_handler_same :
    (handlers old : Handlers) (k : ℕ)
    → handlers k ≡ old k
    → isr_handler handlers k ≡ isr_handler old k
unfolding isr_handler
isr_handler_same handlers old k e = rw (isr_handler, e) refl

-- After a handler has been registered, its interrupt calls it, every other interrupt is dispatched
-- as before, and the gate of the interrupt is present and leads where it did, all other gates being
-- unchanged.
isr_register_handler-calls :
    (interrupt handler : ℕ) (handlers : Handlers) (idt : Idt)
    → (idt interrupt).flags < 256
    → (isr_handler (isr_register_handler interrupt handler (handlers, idt)).0 interrupt
        ≡ calls handler)
      × ((other : ℕ)
          → (other == interrupt) ≡ false
          → (isr_handler (isr_register_handler interrupt handler (handlers, idt)).0 other
              ≡ isr_handler handlers other)
            × ((isr_register_handler interrupt handler (handlers, idt)).1 other ≡ idt other))
      × (is_present ((isr_register_handler interrupt handler (handlers, idt)).1 interrupt) ≡ true)
      × (target ((isr_register_handler interrupt handler (handlers, idt)).1 interrupt)
          ≡ target (idt interrupt))
unfolding isr_register_handler enable_gate store_entry
isr_register_handler-calls interrupt handler handlers idt byte =
    let same = ==_refl interrupt in
    let after : Handlers = (isr_register_handler interrupt handler (handlers, idt)).0 in
    (
      isr_handler-some after interrupt handler (rw same refl),
      λ other differs. (isr_handler_same after handlers other (rw differs refl), rw differs refl),
      rw same (bit_or_present (idt interrupt).flags byte).0,
      rw same refl,
    )
