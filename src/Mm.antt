-- ===== src/Mm.antt =====
-- mm: memory allocation.
pub mod Slub
