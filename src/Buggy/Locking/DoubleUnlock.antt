-- ===== src/Buggy/Locking/DoubleUnlock.antt =====
-- debug-lkms/buggy-modules/locking/double_unlock.c
use linux_kernel_prog.Prelude.{ℕ, List, Bool, false, codes, starts_with, if◌then◌else◌}
use linux_kernel_prog.Kernel.{Result, ok}
use linux_kernel_prog.Interfaces.Counter.{Write}
use linux_kernel_prog.Buggy.Checker.{spin, M, ◌>>◌, pure, serve, proc_init}
use linux_kernel_prog.Buggy.Checker.Locks.{acquire, release, mutex_lock, mutex_unlock}

unfoldable pub mutex_twice : M (Result (Unit {0}))
unfolding mutex_lock mutex_unlock
mutex_twice = do mutex_lock 0; mutex_unlock 0; mutex_unlock 0; pure (ok tt)

unfoldable pub spinlock_twice : M (Result (Unit {0}))
unfolding acquire release
spinlock_twice = do acquire (spin 0); release (spin 0); release (spin 0); pure (ok tt)

unfoldable pub unbalanced : M (Result (Unit {0}))
unfolding mutex_unlock
unbalanced = do mutex_unlock 0; pure (ok tt)

unfoldable pub command : List ℕ → M (Result (Unit {0}))
unfolding mutex_twice spinlock_twice unbalanced
command cmd =
    if starts_with (codes "mutex") cmd
    then mutex_twice
    else if starts_with (codes "spinlock") cmd
    then spinlock_twice
    else if starts_with (codes "unbalanced") cmd
    then unbalanced
    else pure (ok tt)

unfoldable pub trigger_write : Write → M (Result ℕ)
unfolding serve command
trigger_write = serve 16 command

unfoldable pub double_unlock_init : (created : Bool) → Result ℕ × Bool
unfolding proc_init
double_unlock_init created = proc_init created

unfoldable pub double_unlock_exit : Bool → Bool
double_unlock_exit proc_entry = false
