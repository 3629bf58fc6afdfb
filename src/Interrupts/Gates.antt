-- ===== src/Interrupts/Gates.antt =====
-- The gates of source/kernel/core/idt.c after `i686_ISR_Initialize` (source/kernel/core/isr.c).
use waffle_os.Common.{
  ℕ, zero, suc, ◌+◌, ◌*◌, ◌/◌, ◌%◌, ◌^◌, ◌<◌, ◌≡◌, refl, Bool, true, false, ◌&&◌, ltb, leb, ◌==◌,
  if◌then◌else◌, arith, Bool-cases, inl, inr, ◌∙◌, ap,
}
use waffle_os.Interrupts.{
  IdtEntry, Idt, store_entry, set_gate, enable_gate, disable_gate, initialize_gates, enable_gates,
  isr_initialize, flag_set,
}

-- The address that a gate leads to.
abbrev pub target : IdtEntry → ℕ
target e = e.base_high * 2 ^ 16 + e.base_low

abbrev pub gate_to : ℕ → ℕ → IdtEntry
gate_to base flags = record {
  base_low = base % 2 ^ 16;
  segment_selector = 8;
  reserved = 0;
  flags = flags;
  base_high = base / 2 ^ 16 % 2 ^ 16;
}

abbrev between : ℕ → ℕ → ℕ → Bool
between i n k = leb i k && ltb k (i + n)

initialize_gates-eq :
    (isr : ℕ → ℕ) (n i : ℕ) (idt : Idt) (k : ℕ)
    → initialize_gates isr n i idt k ≡ (if between i n k then gate_to (isr k) 0x0E else idt k)
unfolding initialize_gates set_gate store_entry
initialize_gates-eq isr zero i idt k = ground arith
initialize_gates-eq isr (suc n) i idt k =
    let next = set_gate i (isr i) 8 0x0E idt in
    elim (Bool-cases (k == i)) [
      | inl now ↦
          let same : k ≡ i = ground arith in
          let at : next k ≡ gate_to (isr k) 0x0E = rw (now, same) refl in
          let past : between (i + 1) n k ≡ false = ground arith in
          let here : between i (suc n) k ≡ true = ground arith in
          initialize_gates-eq isr n (i + 1) next k ∙ rw (past, here) at
      | inr later ↦
          let at : next k ≡ idt k = rw later refl in
          let later' : between i (suc n) k ≡ between (i + 1) n k = ground arith in
          initialize_gates-eq isr n (i + 1) next k ∙ rw (later', at) refl
    ]

enable_gates-eq :
    (n i : ℕ) (idt : Idt) (k : ℕ)
    → enable_gates n i idt k
      ≡ (if between i n k then record (idt k) { flags = flag_set (idt k).flags 0x80 } else idt k)
unfolding enable_gates enable_gate store_entry
enable_gates-eq zero i idt k = ground arith
enable_gates-eq (suc n) i idt k =
    let next = enable_gate i idt in
    elim (Bool-cases (k == i)) [
      | inl now ↦
          let same : k ≡ i = ground arith in
          let at : next k ≡ record (idt k) { flags = flag_set (idt k).flags 0x80 } =
            rw (now, same) refl in
          let past : between (i + 1) n k ≡ false = ground arith in
          let here : between i (suc n) k ≡ true = ground arith in
          enable_gates-eq n (i + 1) next k ∙ rw (past, here) at
      | inr later ↦
          let at : next k ≡ idt k = rw later refl in
          let later' : between i (suc n) k ≡ between (i + 1) n k = ground arith in
          enable_gates-eq n (i + 1) next k ∙ rw (later', at) refl
    ]

all_enabled :
    (isr : ℕ → ℕ) (idt : Idt) (k : ℕ)
    → k < 256
    → enable_gates 256 0 (initialize_gates isr 256 0 idt) k ≡ gate_to (isr k) 0x8E
all_enabled isr idt k small =
    let set = initialize_gates isr 256 0 idt in
    let range : between 0 256 k ≡ true = ground arith in
    let first : set k ≡ gate_to (isr k) 0x0E =
      initialize_gates-eq isr 256 0 idt k ∙ rw range refl in
    enable_gates-eq 256 0 set k ∙ rw (range, first) refl

disable_gate-gate_to :
    (base : ℕ) (idt : Idt) (k : ℕ)
    → idt k ≡ gate_to base 0x8E
    → disable_gate 0x80 idt k ≡ gate_to base (if k == 0x80 then 0x0E else 0x8E)
unfolding disable_gate store_entry
disable_gate-gate_to base idt k e = elim (Bool-cases (k == 0x80)) [
  | inl now ↦
      let same : k ≡ 0x80 = ground arith in
      let e' : idt 0x80 ≡ gate_to base 0x8E = rw same at e in rw (now, e') refl
  | inr other ↦ rw (other, e) refl
]

target-gate_to : (base flags : ℕ) → base < 2 ^ 32 → target (gate_to base flags) ≡ base
target-gate_to base flags word = omega arith

isr_initialize_lem :
    (isr : ℕ → ℕ) (idt : Idt)
    → isr_initialize isr idt
      ≡ disable_gate 0x80 (enable_gates 256 0 (initialize_gates isr 256 0 idt))
unfolding isr_initialize
isr_initialize_lem isr idt = refl

-- After `i686_ISR_Initialize`, each of the 256 gates is a 32-bit interrupt gate of ring 0 in the
-- code segment that leads to its own stub, and all but gate 0x80 are present.
pub isr_initialize-gate_to :
    (isr : ℕ → ℕ) (idt : Idt) (k : ℕ)
    → k < 256
    → isr k < 2 ^ 32
    → (isr_initialize isr idt k ≡ gate_to (isr k) (if k == 0x80 then 0x0E else 0x8E))
      × (target (isr_initialize isr idt k) ≡ isr k)
isr_initialize-gate_to isr idt k small word =
    let whole : isr_initialize isr idt k ≡ gate_to (isr k) (if k == 0x80 then 0x0E else 0x8E) =
      ap (λ (t : Idt). t k) (isr_initialize_lem isr idt)
      ∙ disable_gate-gate_to (isr k) (enable_gates 256 0 (initialize_gates isr 256 0 idt)) k
          (all_enabled isr idt k small) in
    (whole, ap target whole ∙ target-gate_to (isr k) (if k == 0x80 then 0x0E else 0x8E) word)
