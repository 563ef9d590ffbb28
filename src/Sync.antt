-- ===== src/Sync.antt =====
-- sync: the concurrency programs.
pub mod Books
pub mod Handoff
pub mod Pair
pub mod Refcount
pub mod Kthreads
pub mod LocklessQueue
pub mod Kref
