-- ===== src/Buggy/Locking/SleepInAtomic.antt =====
-- debug-lkms/buggy-modules/locking/sleep_in_atomic.c
use linux_kernel_prog.Prelude.{ℕ, List, Bool, false, codes, starts_with, if◌then◌else◌}
use linux_kernel_prog.Kernel.{Result, ok}
use linux_kernel_prog.Interfaces.Counter.{Write}
use linux_kernel_prog.Buggy.Checker.{spin, M, ◌>>◌, pure, serve, proc_init}
use linux_kernel_prog.Buggy.Checker.Locks.{acquire, release, may_sleep}

unfoldable pub spin_sleep : M (Result (Unit {0}))
unfolding acquire release may_sleep
spin_sleep = do acquire (spin 0); may_sleep; release (spin 0); pure (ok tt)

unfoldable pub command : List ℕ → M (Result (Unit {0}))
unfolding spin_sleep
command cmd = if starts_with (codes "spin_sleep") cmd then spin_sleep else pure (ok tt)

unfoldable pub trigger_write : Write → M (Result ℕ)
unfolding serve command
trigger_write = serve 16 command

unfoldable pub sleep_in_atomic_init : (created : Bool) → Result ℕ × Bool
unfolding proc_init
sleep_in_atomic_init created = proc_init created

unfoldable pub sleep_in_atomic_exit : Bool → Bool
sleep_in_atomic_exit proc_entry = false
