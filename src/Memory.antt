-- ===== src/Memory.antt =====
-- source/kernel/core/memory.c: the chain of blocks of the heap (`Heap`), the byte routines
-- (`Bytes`), and `calloc`, which uses both.
pub mod Heap
pub mod Bytes
pub mod Calloc
