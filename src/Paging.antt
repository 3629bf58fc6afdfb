-- ===== src/Paging.antt =====
-- source/kernel/core/page.c: the page directory and the table of the first four megabytes, on the
-- heap and the bytes of the memory. What is printed is left out.
pub mod Entries
pub mod Separation
pub mod Identity
mod Tests
use Prim.Native.Nat.{bit_or}
use waffle_os.Common.{ℕ, zero, suc, ◌+◌, ◌-◌, ◌*◌, ◌/◌, ◌%◌, ◌^◌, List, Option, none, some, add32}
use waffle_os.Memory.Heap.{Block, malloc}
use waffle_os.Memory.Bytes.{Mem8, write_word, memset}

abbrev pub page_size : ℕ
page_size = 4096

abbrev pub page_entries : ℕ
page_entries = 1024

abbrev pub page_present : ℕ
page_present = 1

abbrev pub page_rw : ℕ
page_rw = 2

pub record Kernel : Type 0 where
  pub chain : List Block
  pub bytes : Mem8
  pub kernel_page_directory : Option ℕ
  pub cr0 : ℕ
  pub cr3 : ℕ

-- The alignments are powers of two: `x & ~(alignment - 1)` is the multiple of it below `x`.
unfoldable pub align : ℕ → ℕ → ℕ
align alignment addr = add32 addr (alignment - 1) / alignment * alignment

unfoldable pub aligned : ℕ → Option ℕ × List Block → Option ℕ × List Block
unfolding align
aligned alignment (none, chain) = (none, chain)
aligned alignment (some p, chain) = (some (align alignment p), chain)

-- `base` is the address of the array `heap`.
unfoldable pub kmalloc_aligned : ℕ → ℕ → ℕ → List Block → Option ℕ × List Block
unfolding aligned
kmalloc_aligned base size alignment chain =
    aligned alignment (malloc base (size + alignment - 1) chain)

-- `entries[i] = v` in a directory or a table.
unfoldable pub store_entry : ℕ → ℕ → ℕ → Mem8 → Mem8
unfolding write_word
store_entry table i v m =
    write_word m (table + 4 * i) (v % 256) (v / 2 ^ 8 % 256) (v / 2 ^ 16 % 256) (v / 2 ^ 24 % 256)

-- The loop over the entries, with the rounds that are left.
unfoldable pub fill_table : ℕ → ℕ → ℕ → Mem8 → Mem8
unfolding store_entry
fill_table zero i table m = m
fill_table (suc n) i table m =
    fill_table n (i + 1) table
      (store_entry table i (bit_or (bit_or (i * page_size) page_present) page_rw) m)

unfoldable pub enable_paging : ℕ → Kernel → Kernel
enable_paging dir k = record k { cr3 = dir; cr0 = bit_or k.cr0 0x80000000 }

-- From the second allocation on.
unfoldable pub with_table : ℕ → Option ℕ × List Block → Kernel → Kernel
unfolding enable_paging fill_table store_entry
with_table dir (none, chain) k = record k { chain = chain }
with_table dir (some table, chain) k =
    let m = fill_table page_entries 0 table (memset table 0 page_size k.bytes) in
    enable_paging dir (record k {
      chain = chain;
      bytes = store_entry dir 0 (bit_or (bit_or table page_present) page_rw) m;
    })

-- From the first allocation on.
unfoldable pub with_directory : ℕ → Option ℕ × List Block → Kernel → Kernel
unfolding with_table kmalloc_aligned
with_directory base (none, chain) k = record k { chain = chain; kernel_page_directory = none }
with_directory base (some dir, chain) k =
    with_table dir (kmalloc_aligned base page_size page_size chain) (record k {
      chain = chain;
      kernel_page_directory = some dir;
      bytes = memset dir 0 page_size k.bytes;
    })

unfoldable pub init_paging : ℕ → Kernel → Kernel
unfolding with_directory kmalloc_aligned
init_paging base k = with_directory base (kmalloc_aligned base page_size page_size k.chain) k
