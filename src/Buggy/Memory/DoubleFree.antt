-- ===== src/Buggy/Memory/DoubleFree.antt =====
-- debug-lkms/buggy-modules/memory/double_free.c
use linux_kernel_prog.Prelude.{ℕ, List, Bool, false, codes, starts_with, if◌then◌else◌}
use linux_kernel_prog.Kernel.{Result, ok}
use linux_kernel_prog.Interfaces.Counter.{Write}
use linux_kernel_prog.Buggy.Checker.{M, ◌>>◌, pure, kfree, access_run, serve, proc_init}
use linux_kernel_prog.Buggy.Memory.{with_kmalloc}

unfoldable pub trigger : M (Result (Unit {0}))
unfolding with_kmalloc access_run kfree
trigger = with_kmalloc 128 (λ ptr. do access_run ptr 0 10; kfree ptr; kfree ptr; pure (ok tt))

-- `ptr2` is `ptr1`.
unfoldable pub complex : M (Result (Unit {0}))
unfolding with_kmalloc kfree
complex = with_kmalloc 64 (λ ptr1. let ptr2 = ptr1 in do kfree ptr1; kfree ptr2; pure (ok tt))

unfoldable pub command : List ℕ → M (Result (Unit {0}))
unfolding trigger complex
command cmd =
    if starts_with (codes "trigger") cmd
    then trigger
    else if starts_with (codes "complex") cmd
    then complex
    else pure (ok tt)

unfoldable pub trigger_write : Write → M (Result ℕ)
unfolding serve command
trigger_write = serve 16 command

unfoldable pub double_free_init : (created : Bool) → Result ℕ × Bool
unfolding proc_init
double_free_init created = proc_init created

unfoldable pub double_free_exit : Bool → Bool
double_free_exit proc_entry = false
