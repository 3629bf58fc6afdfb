-- ===== src/Paging/Entries.antt =====
-- The entries of directories and tables (source/kernel/core/page.c) as words of the memory.
use Prim.Native.Nat.{bit_or}
use waffle_os.Common.{
  ℕ, zero, suc, ◌+◌, ◌*◌, ◌^◌, ◌≤◌, ◌<◌, ◌≡◌, refl, ◌==◌, arith, ◌∙◌, bit_or_low, Bool-cases, inl,
  inr, ◌⊎◌,
}
use waffle_os.Memory.Bytes.{Mem8, write, write_word, memset}
use waffle_os.Memory.Bytes.Fill.{memset-filled}
use waffle_os.Paging.{store_entry, fill_table}

-- The word at an address, its lowest byte first.
abbrev pub word_at : Mem8 → ℕ → ℕ
word_at m a = m a + m (a + 1) * 2 ^ 8 + m (a + 2) * 2 ^ 16 + m (a + 3) * 2 ^ 24

pub word_at-store_entry :
    (table i v : ℕ) (m : Mem8) → v < 2 ^ 32 → word_at (store_entry table i v m) (table + 4 * i) ≡ v
unfolding store_entry write_word write
word_at-store_entry table i v m small = ground arith

pub word_at-store_other :
    (table i v a : ℕ) (m : Mem8)
    → (a + 4 ≤ table + 4 * i) ⊎ (table + 4 * i + 4 ≤ a)
    → word_at (store_entry table i v m) a ≡ word_at m a
unfolding store_entry write_word write
word_at-store_other table i v a m (inl h) = ground arith
word_at-store_other table i v a m (inr h) = ground arith

pub word_at-fill_other :
    (n i table a : ℕ) (m : Mem8)
    → (a + 4 ≤ table + 4 * i) ⊎ (table + 4 * i + 4 * n ≤ a)
    → word_at (fill_table n i table m) a ≡ word_at m a
unfolding fill_table
word_at-fill_other zero i table a m h = refl
word_at-fill_other (suc n) i table a m h =
    word_at-fill_other n (i + 1) table a _ (omega arith)
    ∙ word_at-store_other table i _ a m (omega arith)

-- Entry `j` maps its page to itself.
pub word_at-fill_table :
    (n i table j : ℕ) (m : Mem8)
    → i ≤ j
    → j < i + n
    → i + n ≤ 1024
    → word_at (fill_table n i table m) (table + 4 * j) ≡ j * 4096 + 3
unfolding fill_table
word_at-fill_table zero i table j m lo hi top = absurd (omega arith)
word_at-fill_table (suc n) i table j m lo hi top = elim (Bool-cases (j == i)) [
  | inl now ↦
      let same : j ≡ i = ground arith in
      let value : bit_or (bit_or (i * 4096) 1) 2 ≡ j * 4096 + 3 =
        bit_or_low (i * 4096) (omega arith) ∙ omega arith in
      word_at-fill_other n (i + 1) table (table + 4 * j) _ (omega arith)
      ∙ rw (value, same) (word_at-store_entry table i (i * 4096 + 3) m (omega arith))
  | inr later ↦ word_at-fill_table n (i + 1) table j _ (ground arith) (omega arith) (omega arith)
]

pub word_at-memset : (s n a : ℕ) (m : Mem8) → s ≤ a → a + 4 ≤ s + n → word_at (memset s 0 n m) a ≡ 0
word_at-memset s n a m lo hi = rw (memset-filled s 0 n m) (ground arith)

pub word_at-memset_other :
    (s n a : ℕ) (m : Mem8) → (a + 4 ≤ s) ⊎ (s + n ≤ a) → word_at (memset s 0 n m) a ≡ word_at m a
word_at-memset_other s n a m (inl h) = rw (memset-filled s 0 n m) (ground arith)
word_at-memset_other s n a m (inr h) = rw (memset-filled s 0 n m) (ground arith)
