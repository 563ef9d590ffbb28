-- ===== src/Buggy/Memory/BufferOverflow.antt =====
-- debug-lkms/buggy-modules/memory/buffer_overflow.c
use linux_kernel_prog.Prelude.{ℕ, List, Bool, false, codes, starts_with, if◌then◌else◌}
use linux_kernel_prog.Kernel.{Result, ok}
use linux_kernel_prog.Interfaces.Counter.{Write}
use linux_kernel_prog.Buggy.Checker.{
  M, ◌>>◌, pure, kfree, access_run, access_before, serve, proc_init,
}
use linux_kernel_prog.Buggy.Memory.{with_kmalloc}

-- `for (i = 0; i < 128; i++) buf[i] = ...`
unfoldable pub overflow : M (Result (Unit {0}))
unfolding with_kmalloc access_run kfree
overflow = with_kmalloc 64 (λ buf. do access_run buf 0 128; kfree buf; pure (ok tt))

-- `for (i = -64; i < 0; i++) buf[i] = ...`
unfoldable pub underflow : M (Result (Unit {0}))
unfolding with_kmalloc access_before kfree
underflow = with_kmalloc 64 (λ buf. do access_before buf 64; kfree buf; pure (ok tt))

unfoldable pub command : List ℕ → M (Result (Unit {0}))
unfolding overflow underflow
command cmd =
    if starts_with (codes "overflow") cmd
    then overflow
    else if starts_with (codes "underflow") cmd
    then underflow
    else pure (ok tt)

unfoldable pub trigger_write : Write → M (Result ℕ)
unfolding serve command
trigger_write = serve 16 command

unfoldable pub buffer_overflow_init : (created : Bool) → Result ℕ × Bool
unfolding proc_init
buffer_overflow_init created = proc_init created

unfoldable pub buffer_overflow_exit : Bool → Bool
buffer_overflow_exit proc_entry = false
