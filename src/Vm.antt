-- ===== src/Vm.antt =====
-- vm: page table walks.
pub mod Mmu
pub mod Capitalize
pub mod Userwalk
pub mod Pagewalk
pub mod Sample
