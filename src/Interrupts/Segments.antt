-- ===== src/Interrupts/Segments.antt =====
-- The entries of the global descriptor table of source/kernel/core/gdt.c. A mask is a remainder or a
-- quotient by a power of two.
use Prim.Native.Nat.{bit_or}
use waffle_os.Common.{
  ℕ, ◌+◌, ◌*◌, ◌/◌, ◌%◌, ◌^◌, ◌<◌, ◌≡◌, ◌∙◌, refl, ap, sym, List, [], ◌∷◌, arith, Bool, true, ◌==◌,
  ==_iff, every_under, every_under_lem,
}

pub record GdtEntry : Type 0 where
  pub limit_low : ℕ
  pub base_low : ℕ
  pub base_middle : ℕ
  pub access : ℕ
  pub flags_limit_hi : ℕ
  pub base_high : ℕ

-- GDT_ENTRY, which cuts its arguments to the fields.
unfoldable pub gdt_entry : ℕ → ℕ → ℕ → ℕ → GdtEntry
gdt_entry base limit access flags = record {
  limit_low = limit % 2 ^ 16;
  base_low = base % 2 ^ 16;
  base_middle = base / 2 ^ 16 % 2 ^ 8;
  access = access % 2 ^ 8;
  flags_limit_hi = bit_or (limit / 2 ^ 16 % 2 ^ 4) (flags / 2 ^ 4 % 2 ^ 4 * 2 ^ 4);
  base_high = base / 2 ^ 24 % 2 ^ 8;
}

unfoldable pub gdt : List GdtEntry
unfolding gdt_entry
gdt =
    gdt_entry 0 0 0 0
    ∷ gdt_entry 0 0xFFFFF (bit_or 0x80 (bit_or 0x18 0x02)) (bit_or 0x40 0x80)
    ∷ gdt_entry 0 0xFFFFF (bit_or 0x80 (bit_or 0x10 0x02)) (bit_or 0x40 0x80)
    ∷ []

-- The base and the limit that the processor reads.
abbrev pub base_of : GdtEntry → ℕ
base_of e = e.base_low + e.base_middle * 2 ^ 16 + e.base_high * 2 ^ 24

abbrev pub limit_of : GdtEntry → ℕ
limit_of e = e.limit_low + e.flags_limit_hi % 2 ^ 4 * 2 ^ 16

abbrev nibbles_join : ℕ → Bool
nibbles_join n = bit_or (n % 16) (n / 16 * 16) == n

all_nibbles_join : every_under nibbles_join 256 ≡ true
unfolding every_under
all_nibbles_join = refl

bit_or-nibbles : (low high : ℕ) → low < 16 → high < 16 → bit_or low (high * 16) ≡ low + high * 16
bit_or-nibbles low high l h =
    let n = low + high * 16 in
    let joins = every_under_lem nibbles_join 256 n (omega arith) all_nibbles_join in
    let low' : n % 16 ≡ low = omega arith in
    let high' : n / 16 ≡ high = omega arith in
    ap (λ k. bit_or k (high * 16)) (sym low')
    ∙ ap (λ k. bit_or (n % 16) (k * 16)) (sym high')
    ∙ (==_iff (bit_or (n % 16) (n / 16 * 16)) n).0 joins

-- A descriptor holds what it is made of, in the fields that the processor puts together again: a base of
-- 32 bits, a limit of 20 bits, the access byte and the upper four bits of the flags, though the limit
-- and the flags share a byte.
gdt_entry-fields :
    (base limit access flags : ℕ)
    → base < 2 ^ 32
    → limit < 2 ^ 20
    → access < 2 ^ 8
    → let e = gdt_entry base limit access flags in
      (base_of e ≡ base)
      × (limit_of e ≡ limit)
      × (e.access ≡ access)
      × (e.flags_limit_hi / 2 ^ 4 ≡ flags / 2 ^ 4 % 2 ^ 4)
unfolding gdt_entry
gdt_entry-fields base limit access flags b l a =
    let split =
      bit_or-nibbles (limit / 2 ^ 16 % 2 ^ 4) (flags / 2 ^ 4 % 2 ^ 4) (omega arith) (omega arith) in
    (omega arith, omega arith, omega arith, omega arith)
