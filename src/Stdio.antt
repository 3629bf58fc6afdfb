-- ===== src/Stdio.antt =====
-- source/kernel/core/stdio.c: the digits of a number (`Digits`), the format machine of `vsnprintf`
-- (`Format`) and the bounded buffer that it prints to (`Buffer`).
pub mod Digits
pub mod Format
pub mod Buffer
pub mod Print
pub mod Bounded
mod Tests
