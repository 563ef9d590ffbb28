-- ===== src/Vm/Pagewalk.antt =====
-- vm/p1_trans: walks of the running task's page table for memory that the module allocates.
pub mod Kernelmem
pub mod X86
pub mod Arm64
pub mod Laws
mod Examples
