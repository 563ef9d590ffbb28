-- ===== src/Buggy/Memory.antt =====
-- debug-lkms/buggy-modules/memory. A `sprintf` is a run of accesses, of the text and its NUL.
pub mod Reports
pub mod Table
pub mod Intended
pub mod Resized
pub mod DoubleFree
pub mod UseAfterFree
pub mod InvalidFree
pub mod BufferOverflow
pub mod OobRead
pub mod KreallocMisuse
pub mod SlabCorruption
use linux_kernel_prog.Prelude.{ℕ, Option, none, some}
use linux_kernel_prog.Kernel.{Result, ok, err, Errno}
use linux_kernel_prog.Buggy.Checker.{M, ◌>>=◌, pure, kmalloc}

-- `ptr = kmalloc(size); if (!ptr) return -ENOMEM;` and the rest of the command.
unfoldable pub with_kmalloc : ℕ → (ℕ → M (Result (Unit {0}))) → M (Result (Unit {0}))
unfolding kmalloc
with_kmalloc size body = do
  p ← kmalloc size
  elim p [ none ↦ pure (err Errno.enomem) | some p ↦ body p ]
