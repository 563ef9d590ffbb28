-- ===== src/Buggy/Locking/SpinRecursion.antt =====
-- debug-lkms/buggy-modules/locking/spin_recursion.c
use linux_kernel_prog.Prelude.{ℕ, List, Bool, false, codes, starts_with, if◌then◌else◌}
use linux_kernel_prog.Kernel.{Result, ok}
use linux_kernel_prog.Interfaces.Counter.{Write}
use linux_kernel_prog.Buggy.Checker.{spin, M, ◌>>◌, pure, serve, proc_init}
use linux_kernel_prog.Buggy.Checker.Locks.{acquire, release}

unfoldable pub self : M (Result (Unit {0}))
unfolding acquire release
self = do acquire (spin 0); acquire (spin 0); release (spin 0); release (spin 0); pure (ok tt)

unfoldable pub command : List ℕ → M (Result (Unit {0}))
unfolding self
command cmd = if starts_with (codes "self") cmd then self else pure (ok tt)

unfoldable pub trigger_write : Write → M (Result ℕ)
unfolding serve command
trigger_write = serve 16 command

unfoldable pub spin_recursion_init : (created : Bool) → Result ℕ × Bool
unfolding proc_init
spin_recursion_init created = proc_init created

unfoldable pub spin_recursion_exit : Bool → Bool
spin_recursion_exit proc_entry = false
