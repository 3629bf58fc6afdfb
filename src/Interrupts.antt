-- ===== src/Interrupts.antt =====
-- The interrupt descriptor table of source/kernel/core/idt.c, its gates for the stubs of
-- source/kernel/core/isrs_gen.c, the dispatch of source/kernel/core/isr.c and the masks of the two
-- interrupt controllers. The stubs are assembly: the address of stub `k` is the parameter `isr k`.
-- What is printed is left out, and so is the text of an exception.
pub mod Segments
pub mod Gates
pub mod Dispatch
pub mod Masks
mod Tests
use Prim.Native.Nat.{bit_or, bit_and}
use waffle_os.Common.{
  ℕ, zero, suc, ◌+◌, ◌-◌, ◌*◌, ◌/◌, ◌%◌, ◌^◌, Bool, true, false, List, [], ◌∷◌, ◌++◌, Option, none,
  some, ltb, leb, ◌==◌, if◌then◌else◌,
}

pub record IdtEntry : Type 0 where
  pub base_low : ℕ
  pub segment_selector : ℕ
  pub reserved : ℕ
  pub flags : ℕ
  pub base_high : ℕ

-- `g_IDT`
abbrev pub Idt : Type 0
Idt = ℕ → IdtEntry

abbrev pub idt_size : ℕ
idt_size = 256

abbrev pub flag_present : ℕ
flag_present = 0x80

-- `IDT_FLAG_RING0 | IDT_FLAG_GATE_32BIT_INT`
abbrev pub flags_interrupt_gate : ℕ
flags_interrupt_gate = 0x0E

-- `i686_GDT_CODE_SEGMENT`
abbrev pub code_segment : ℕ
code_segment = 0x08

unfoldable pub store_entry : ℕ → IdtEntry → Idt → Idt
store_entry interrupt entry idt i = if i == interrupt then entry else idt i

unfoldable pub set_gate : ℕ → ℕ → ℕ → ℕ → Idt → Idt
unfolding store_entry
set_gate interrupt base segment_descriptor flags idt =
    store_entry interrupt
      (record {
        base_low = base % 2 ^ 16;
        segment_selector = segment_descriptor;
        reserved = 0;
        flags = flags;
        base_high = base / 2 ^ 16 % 2 ^ 16;
      })
      idt

-- `FLAG_SET` and `FLAG_UNSET` on a byte
abbrev pub flag_set : ℕ → ℕ → ℕ
flag_set x flag = bit_or x flag

abbrev pub flag_unset : ℕ → ℕ → ℕ
flag_unset x flag = bit_and x (255 - flag)

unfoldable pub enable_gate : ℕ → Idt → Idt
unfolding store_entry
enable_gate interrupt idt =
    store_entry interrupt
      (record (idt interrupt) { flags = flag_set (idt interrupt).flags flag_present }) idt

unfoldable pub disable_gate : ℕ → Idt → Idt
unfolding store_entry
disable_gate interrupt idt =
    store_entry interrupt
      (record (idt interrupt) { flags = flag_unset (idt interrupt).flags flag_present }) idt

-- The loop of `init_idt`, with the rounds that are left.
unfoldable pub clear_entries : ℕ → ℕ → Idt → Idt
unfolding store_entry
clear_entries zero i idt = idt
clear_entries (suc n) i idt = clear_entries n (i + 1) (
    store_entry i
      (record { base_low = 0; segment_selector = 0; reserved = 0; flags = 0; base_high = 0 }) idt)

unfoldable pub register_interrupt_handler : ℕ → ℕ → Idt → Idt
unfolding set_gate
register_interrupt_handler interrupt_number handler_address idt =
    set_gate interrupt_number handler_address code_segment
      (bit_or flag_present flags_interrupt_gate) idt

module _ (isr : ℕ → ℕ) where
  -- The calls of `i686_ISR_InitializeGates` from gate `i` on, `n` of them.
  unfoldable pub initialize_gates : ℕ → ℕ → Idt → Idt
  unfolding set_gate
  initialize_gates zero i idt = idt
  initialize_gates (suc n) i idt =
      initialize_gates n (i + 1) (set_gate i (isr i) code_segment flags_interrupt_gate idt)

-- The loop of `i686_ISR_Initialize`.
unfoldable pub enable_gates : ℕ → ℕ → Idt → Idt
unfolding enable_gate
enable_gates zero i idt = idt
enable_gates (suc n) i idt = enable_gates n (i + 1) (enable_gate i idt)

unfoldable pub isr_initialize : (ℕ → ℕ) → Idt → Idt
unfolding initialize_gates enable_gates disable_gate
isr_initialize isr idt =
    disable_gate 0x80 (enable_gates idt_size 0 (initialize_gates isr idt_size 0 idt))

-- `g_ISRHandlers`; a handler is the number of a function.
abbrev pub Handlers : Type 0
Handlers = ℕ → Option ℕ

-- What `i686_ISR_Handler` does with an interrupt.
pub data Dispatched : Type 0 where
  calls : ℕ → Dispatched
  unhandled : ℕ → Dispatched
  panics : ℕ → Dispatched

unfoldable pub isr_handler : Handlers → ℕ → Dispatched
isr_handler handlers interrupt = elim (handlers interrupt) [
  | some handler ↦ calls handler
  | none ↦ if leb 32 interrupt then unhandled interrupt else panics interrupt
]

unfoldable pub isr_register_handler : ℕ → ℕ → Handlers × Idt → Handlers × Idt
unfolding enable_gate
isr_register_handler interrupt handler (handlers, idt) =
    ((λ i. if i == interrupt then some handler else handlers i), enable_gate interrupt idt)

-- Writes to ports: the port and the byte, in order.
abbrev pub Writes : Type 0
Writes = List (ℕ × ℕ)

-- PIC1 and PIC2, their command and data ports.
abbrev pub pic1_command : ℕ
pic1_command = 0x20

abbrev pub pic1_data : ℕ
pic1_data = 0x21

abbrev pub pic2_command : ℕ
pic2_command = 0xA0

abbrev pub pic2_data : ℕ
pic2_data = 0xA1

unfoldable pub send_eoi : ℕ → Writes
send_eoi irq = (if leb 8 irq then (pic2_command, 0x20) ∷ [] else []) ++ (pic1_command, 0x20) ∷ []

unfoldable pub init_pic : Writes
init_pic =
    (pic1_command, 0x11)
    ∷ (pic2_command, 0x11)
    ∷ (pic1_data, 0x20)
    ∷ (pic2_data, 0x28)
    ∷ (pic1_data, 0x04)
    ∷ (pic2_data, 0x02)
    ∷ (pic1_data, 0x01)
    ∷ (pic2_data, 0x01)
    ∷ (pic1_data, flag_unset 0xFF 0x04)
    ∷ (pic2_data, 0xFF)
    ∷ []

-- `x86_inb(port)` reads `masks port`.
unfoldable pub enable_irq : (ℕ → ℕ) → ℕ → Writes
enable_irq masks irq =
    let port : ℕ = if ltb irq 8 then pic1_data else pic2_data in
    let bit : ℕ = if ltb irq 8 then irq else irq - 8 in
    (port, flag_unset (masks port) (2 ^ bit)) ∷ []
