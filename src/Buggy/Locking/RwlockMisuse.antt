-- ===== src/Buggy/Locking/RwlockMisuse.antt =====
-- debug-lkms/buggy-modules/locking/rwlock_misuse.c
use linux_kernel_prog.Prelude.{ℕ, List, Bool, false, codes, starts_with, if◌then◌else◌}
use linux_kernel_prog.Kernel.{Result, ok}
use linux_kernel_prog.Interfaces.Counter.{Write}
use linux_kernel_prog.Buggy.Checker.{reader, writer, M, ◌>>◌, pure, serve, proc_init}
use linux_kernel_prog.Buggy.Checker.Locks.{acquire, release}

unfoldable pub upgrade : M (Result (Unit {0}))
unfolding acquire release
upgrade = do
  acquire (reader 0)
  acquire (writer 0)
  release (writer 0)
  release (reader 0)
  pure (ok tt)

unfoldable pub double_write : M (Result (Unit {0}))
unfolding acquire release
double_write = do
  acquire (writer 0)
  acquire (writer 0)
  release (writer 0)
  release (writer 0)
  pure (ok tt)

unfoldable pub command : List ℕ → M (Result (Unit {0}))
unfolding upgrade double_write
command cmd =
    if starts_with (codes "upgrade") cmd
    then upgrade
    else if starts_with (codes "double_write") cmd
    then double_write
    else pure (ok tt)

unfoldable pub trigger_write : Write → M (Result ℕ)
unfolding serve command
trigger_write = serve 16 command

unfoldable pub rwlock_misuse_init : (created : Bool) → Result ℕ × Bool
unfolding proc_init
rwlock_misuse_init created = proc_init created

unfoldable pub rwlock_misuse_exit : Bool → Bool
rwlock_misuse_exit proc_entry = false
