-- ===== src/Paging/Identity.antt =====
-- The address translation that `init_paging` (source/kernel/core/page.c) sets up.
use Prim.Native.Nat.{bit_or}
use waffle_os.Common.{
  ℕ, ◌+◌, ◌*◌, ◌/◌, ◌%◌, ◌^◌, ◌≤◌, ◌<◌, ◌≡◌, refl, true, ltb, ◌==◌, if◌then◌else◌, arith, ap, ◌∙◌,
  List, Option, none, some, bit_or_low, Bool-cases, inl, inr, ◌⊎◌,
}
use waffle_os.Memory.Heap.{Block, malloc}
use waffle_os.Memory.Heap.Contract.{IsReady}
use waffle_os.Memory.Bytes.{Mem8, memset}
use waffle_os.Paging.{
  Kernel, align, aligned, kmalloc_aligned, store_entry, fill_table, enable_paging, with_table,
  with_directory, init_paging,
}
use waffle_os.Paging.Entries.{
  word_at, word_at-store_entry, word_at-store_other, word_at-fill_other, word_at-fill_table,
  word_at-memset, word_at-memset_other,
}
use waffle_os.Paging.Separation.{malloc-TwoPayloads}

-- The processor's walk of two levels for an address of 32 bits: an entry is present if its lowest
-- bit is set, and its upper 20 bits are the page.
abbrev pub frame : ℕ → ℕ
frame entry = entry / 4096 * 4096

abbrev pub page_walk : ℕ → ℕ → Option ℕ
page_walk entry v = if entry % 2 == 1 then some (frame entry + v % 4096) else none

abbrev pub translate : Mem8 → ℕ → ℕ → Option ℕ
translate m cr3 v =
    let directory_entry : ℕ = word_at m (cr3 + 4 * (v / 2 ^ 22)) in
    if directory_entry % 2 == 1
    then page_walk (word_at m (frame directory_entry + 4 * (v / 4096 % 1024))) v
    else none

-- An aligned region inside a larger payload.
align-inside :
    (p : ℕ)
    → p + 8191 < 2 ^ 32
    → (p ≤ align 4096 p) × ((align 4096 p + 4096 ≤ p + 8191) × (align 4096 p % 4096 ≡ 0))
unfolding align
align-inside p h = omega arith

-- The memory that `init_paging` leaves, with the directory and the table apart.
final_bytes : ℕ → ℕ → Mem8 → Mem8
final_bytes dir table m =
    store_entry dir 0 (bit_or (bit_or table 1) 2)
      (fill_table 1024 0 table (memset table 0 4096 (memset dir 0 4096 m)))

abbrev Apart : ℕ → ℕ → Type 0
Apart dir table = (dir + 4096 ≤ table) ⊎ (table + 4096 ≤ dir)

directory_first :
    (dir table : ℕ) (m : Mem8)
    → table % 4096 ≡ 0
    → table + 3 < 2 ^ 32
    → word_at (final_bytes dir table m) dir ≡ table + 3
unfolding final_bytes
directory_first dir table m low top =
    let value = bit_or_low table (omega arith) in
    let at : dir ≡ dir + 4 * 0 = omega arith in
    let m' = fill_table 1024 0 table (memset table 0 4096 (memset dir 0 4096 m)) in
    rw value (
      ap (word_at (store_entry dir 0 (table + 3) m')) at
      ∙ word_at-store_entry dir 0 (table + 3) m' top)

directory_other :
    (dir table j : ℕ) (m : Mem8)
    → Apart dir table
    → 0 < j
    → j < 1024
    → word_at (final_bytes dir table m) (dir + 4 * j) ≡ 0
unfolding final_bytes
directory_other dir table j m sep lo hi =
    word_at-store_other dir 0 _ (dir + 4 * j) _ (omega arith)
    ∙ word_at-fill_other 1024 0 table (dir + 4 * j) _ (omega arith)
    ∙ word_at-memset_other table 4096 (dir + 4 * j) _ (omega arith)
    ∙ word_at-memset dir 4096 (dir + 4 * j) m (omega arith) (omega arith)

table_entry :
    (dir table j : ℕ) (m : Mem8)
    → Apart dir table
    → j < 1024
    → word_at (final_bytes dir table m) (table + 4 * j) ≡ j * 4096 + 3
unfolding final_bytes
table_entry dir table j m sep hi =
    word_at-store_other dir 0 _ (table + 4 * j) _ (omega arith)
    ∙ word_at-fill_table 1024 0 table j _ (omega arith) (omega arith) (omega arith)

translate-identity :
    (dir table v : ℕ) (m : Mem8)
    → Apart dir table
    → table % 4096 ≡ 0
    → table + 3 < 2 ^ 32
    → v < 2 ^ 32
    → translate (final_bytes dir table m) dir v ≡ (if ltb v (2 ^ 22) then some v else none)
translate-identity dir table v m sep low top word = elim (Bool-cases (ltb v (2 ^ 22))) [
  | inl first ↦
      let start : dir + 4 * (v / 2 ^ 22) ≡ dir = ground arith in
      let present : ((table + 3) % 2 == 1) ≡ true = ground arith in
      let place : frame (table + 3) ≡ table = omega arith in
      let index : v / 4096 % 1024 < 1024 = omega arith in
      let entry = table_entry dir table (v / 4096 % 1024) m sep index in
      let whole : page_walk (v / 4096 % 1024 * 4096 + 3) v ≡ some v = ground arith in
      rw (first, start, directory_first dir table m low top, present, place, entry) whole
  | inr later ↦
      rw (later, directory_other dir table (v / 2 ^ 22) m sep (ground arith) (ground arith)) refl
]

abbrev pub after_first : ℕ → List Block → List Block
after_first base chain = (malloc base 8191 chain).1

kmalloc_aligned-some :
    (base p : ℕ) (chain : List Block)
    → (malloc base 8191 chain).0 ≡ some p
    → kmalloc_aligned base 4096 4096 chain ≡ (some (align 4096 p), after_first base chain)
unfolding kmalloc_aligned
kmalloc_aligned-some base p chain e =
    ap (λ (o : Option ℕ). aligned 4096 (o, after_first base chain)) e

init_paging-kernel :
    (base p q : ℕ) (k : Kernel)
    → (malloc base 8191 k.chain).0 ≡ some p
    → (malloc base 8191 (after_first base k.chain)).0 ≡ some q
    → init_paging base k ≡ record {
      chain = after_first base (after_first base k.chain);
      bytes = final_bytes (align 4096 p) (align 4096 q) k.bytes;
      kernel_page_directory = some (align 4096 p);
      cr0 = bit_or k.cr0 0x80000000;
      cr3 = align 4096 p;
    }
unfolding init_paging with_directory with_table enable_paging final_bytes
init_paging-kernel base p q k first second =
    let dir = align 4096 p in
    let chain = after_first base k.chain in
    ap (λ r. with_directory base r k) (kmalloc_aligned-some base p k.chain first)
    ∙ ap
        (λ r. with_table dir r (record k {
          chain = chain;
          kernel_page_directory = some dir;
          bytes = memset dir 0 4096 k.bytes;
        }))
        (kmalloc_aligned-some base q chain second)

-- With a heap that does not end within a page of the end of the address space, and if both
-- allocations are served, `init_paging` switches paging on with the directory that it has allocated,
-- and the addresses of the first four megabytes are mapped to themselves and no others are mapped.
pub init_paging-translate :
    (base p q : ℕ) (k : Kernel) (v : ℕ)
    → IsReady base k.chain
    → base + 0x101000 < 2 ^ 32
    → (malloc base 8191 k.chain).0 ≡ some p
    → (malloc base 8191 (after_first base k.chain)).0 ≡ some q
    → v < 2 ^ 32
    → ((init_paging base k).kernel_page_directory ≡ some (init_paging base k).cr3)
      × ((init_paging base k).cr0 ≡ bit_or k.cr0 0x80000000)
      × (translate (init_paging base k).bytes (init_paging base k).cr3 v
          ≡ (if ltb v (2 ^ 22) then some v else none))
init_paging-translate base p q k v ready room first second word =
    let two = malloc-TwoPayloads base 8191 p q k.chain ready first second in
    let dir = align-inside p (omega (arith, two.first_in)) in
    let table = align-inside q (omega (arith, two.second_in)) in
    let sep : Apart (align 4096 p) (align 4096 q) = omega (arith, two.separate, dir, table) in
    let top : align 4096 q + 3 < 2 ^ 32 = omega (arith, two.second_in, table) in
    rw (init_paging-kernel base p q k first second) (
      refl,
      refl,
      translate-identity (align 4096 p) (align 4096 q) v k.bytes sep table.1.1 top word,
    )
