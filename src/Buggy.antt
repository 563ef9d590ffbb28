-- ===== src/Buggy.antt =====
-- debug-lkms/buggy-modules: modules that commit one kind of error at a write to their trigger file.
pub mod MissingLock
pub mod Checker
pub mod Memory
pub mod Locking
mod Examples
