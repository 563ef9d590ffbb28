-- ===== src/Buggy/Locking.antt =====
-- debug-lkms/buggy-modules/locking, but for missing_lock.c. A file's locks are numbered from 0.
pub mod Intended
pub mod DoubleUnlock
pub mod RwlockMisuse
pub mod RwsemMisuse
pub mod SleepInAtomic
pub mod SpinRecursion
pub mod RcuMisuse
pub mod Deadlock
