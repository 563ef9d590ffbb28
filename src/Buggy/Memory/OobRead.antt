-- ===== src/Buggy/Memory/OobRead.antt =====
-- debug-lkms/buggy-modules/memory/oob_read.c. The sum that is read is printed and nothing else.
use linux_kernel_prog.Prelude.{ℕ, List, Bool, false, codes, starts_with, if◌then◌else◌}
use linux_kernel_prog.Kernel.{Result, ok}
use linux_kernel_prog.Interfaces.Counter.{Write}
use linux_kernel_prog.Buggy.Checker.{
  M, ◌>>◌, pure, before, kfree, access, access_run, serve, proc_init,
}
use linux_kernel_prog.Buggy.Memory.{with_kmalloc}

-- `for (i = 64; i < 128; i++) sum += buf[i]`
unfoldable pub overflow : M (Result (Unit {0}))
unfolding with_kmalloc access_run kfree
overflow = with_kmalloc 64 (λ buf. do access_run buf 64 64; kfree buf; pure (ok tt))

-- `buf[-1] + buf[-16]`
unfoldable pub underflow : M (Result (Unit {0}))
unfolding with_kmalloc access kfree
underflow =
    with_kmalloc 64
      (λ buf. do access buf (before 1); access buf (before 16); kfree buf; pure (ok tt))

unfoldable pub command : List ℕ → M (Result (Unit {0}))
unfolding overflow underflow
command cmd =
    if starts_with (codes "overflow") cmd
    then overflow
    else if starts_with (codes "underflow") cmd
    then underflow
    else pure (ok tt)

unfoldable pub trigger_write : Write → M (Result ℕ)
unfolding serve command
trigger_write = serve 16 command

unfoldable pub oob_read_init : (created : Bool) → Result ℕ × Bool
unfolding proc_init
oob_read_init created = proc_init created

unfoldable pub oob_read_exit : Bool → Bool
oob_read_exit proc_entry = false
