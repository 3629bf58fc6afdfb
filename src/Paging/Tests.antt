-- ===== src/Paging/Tests.antt =====
-- Paging on a fresh heap.
use waffle_os.Common.{◌≡◌, refl, inl, [], none, some, arith}
use Prim.Native.Nat.{bit_or}
use waffle_os.Memory.Heap.{malloc}
use waffle_os.Paging.{Kernel, init_paging}
use waffle_os.Paging.Identity.{translate, init_paging-translate}

abbrev fresh : Kernel
fresh = record { chain = []; bytes = λ a. a; kernel_page_directory = none; cr0 = 0x11; cr3 = 0 }

init_paging-translate_example :
    ((init_paging 0x200000 fresh).kernel_page_directory ≡ some (init_paging 0x200000 fresh).cr3)
    × ((init_paging 0x200000 fresh).cr0 ≡ bit_or 0x11 0x80000000)
    × (translate (init_paging 0x200000 fresh).bytes (init_paging 0x200000 fresh).cr3 0xB8000
        ≡ some 0xB8000)
unfolding malloc
init_paging-translate_example =
    init_paging-translate 0x200000 0x20000C 0x202017 fresh 0xB8000 (inl refl) (omega arith) refl
      refl (omega arith)
