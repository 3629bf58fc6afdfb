-- ===== src/Interrupts/Tests.antt =====
-- Runs of the interrupt tables at concrete inputs.
use waffle_os.Interrupts.Segments.{gdt, limit_of}
use waffle_os.Common.{ℕ, ◌+◌, ◌*◌, ◌≡◌, arith, map, [], ◌∷◌, refl}
use waffle_os.Interrupts.{Idt, isr_initialize}
use waffle_os.Interrupts.Gates.{isr_initialize-gate_to, gate_to, target}

abbrev blank : Idt
blank i = record { base_low = 0; segment_selector = 0; reserved = 0; flags = 0; base_high = 0 }

abbrev stub : ℕ → ℕ
stub k = 0xC0101000 + 16 * k

isr_initialize-gate_to_example :
    (isr_initialize stub blank 33 ≡ gate_to (stub 33) 0x8E)
    × (target (isr_initialize stub blank 33) ≡ stub 33)
isr_initialize-gate_to_example = isr_initialize-gate_to stub blank 33 (omega arith) (omega arith)

-- The code segment at selector 8 covers all addresses, in pages of four kilobytes.
code_limit : map limit_of gdt ≡ 0 ∷ 0xFFFFF ∷ 0xFFFFF ∷ []
unfolding gdt
code_limit = refl
