-- ===== src/Memory/Calloc/Tests.antt =====
-- `calloc` on a fresh heap.
use waffle_os.Common.{◌≡◌, refl, [], some}
use waffle_os.Memory.Heap.{malloc}
use waffle_os.Memory.Calloc.{HeapBytes, calloc}

abbrev fresh : HeapBytes
fresh = record { chain = []; bytes = λ a. a }

-- 65537 items of 65537 bytes: the request that reaches `malloc` is for 131073 bytes, and is served.
wraps : (calloc 4096 65537 65537 fresh).0 ≡ some 4108
unfolding calloc malloc
wraps = refl
