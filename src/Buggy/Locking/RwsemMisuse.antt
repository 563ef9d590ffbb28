-- ===== src/Buggy/Locking/RwsemMisuse.antt =====
-- debug-lkms/buggy-modules/locking/rwsem_misuse.c
use linux_kernel_prog.Prelude.{ℕ, List, Bool, false, codes, starts_with, if◌then◌else◌}
use linux_kernel_prog.Kernel.{Result, ok}
use linux_kernel_prog.Interfaces.Counter.{Write}
use linux_kernel_prog.Buggy.Checker.{spin, M, ◌>>◌, pure, serve, proc_init}
use linux_kernel_prog.Buggy.Checker.Locks.{acquire, release, down_read, up_read}

unfoldable pub down_in_spin : M (Result (Unit {0}))
unfolding acquire release down_read up_read
down_in_spin = do acquire (spin 0); down_read 0; up_read 0; release (spin 0); pure (ok tt)

unfoldable pub command : List ℕ → M (Result (Unit {0}))
unfolding down_in_spin
command cmd = if starts_with (codes "down_in_spin") cmd then down_in_spin else pure (ok tt)

unfoldable pub trigger_write : Write → M (Result ℕ)
unfolding serve command
trigger_write = serve 24 command

unfoldable pub rwsem_misuse_init : (created : Bool) → Result ℕ × Bool
unfolding proc_init
rwsem_misuse_init created = proc_init created

unfoldable pub rwsem_misuse_exit : Bool → Bool
rwsem_misuse_exit proc_entry = false
