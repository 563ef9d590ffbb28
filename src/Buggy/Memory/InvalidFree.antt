-- ===== src/Buggy/Memory/InvalidFree.antt =====
-- debug-lkms/buggy-modules/memory/invalid_free.c
use linux_kernel_prog.Prelude.{ℕ, List, Bool, false, codes, starts_with, if◌then◌else◌}
use linux_kernel_prog.Kernel.{Result, ok}
use linux_kernel_prog.Interfaces.Counter.{Write}
use linux_kernel_prog.Buggy.Checker.{M, ◌>>◌, pure, kfree_invalid, serve, proc_init}
use linux_kernel_prog.Buggy.Memory.{with_kmalloc}

-- `kfree(stack_buf)`, and `kfree(global_buf)`: nothing on the heap starts there.
unfoldable pub stack : M (Result (Unit {0}))
unfolding kfree_invalid
stack = do kfree_invalid; pure (ok tt)

unfoldable pub global : M (Result (Unit {0}))
unfolding kfree_invalid
global = do kfree_invalid; pure (ok tt)

-- `kfree(ptr + 8)`, which leaves the object.
unfoldable pub offset : M (Result (Unit {0}))
unfolding with_kmalloc kfree_invalid
offset = with_kmalloc 64 (λ ptr. do kfree_invalid; pure (ok tt))

unfoldable pub command : List ℕ → M (Result (Unit {0}))
unfolding stack global offset
command cmd =
    if starts_with (codes "stack") cmd
    then stack
    else if starts_with (codes "global") cmd
    then global
    else if starts_with (codes "offset") cmd
    then offset
    else pure (ok tt)

unfoldable pub trigger_write : Write → M (Result ℕ)
unfolding serve command
trigger_write = serve 16 command

unfoldable pub invalid_free_init : (created : Bool) → Result ℕ × Bool
unfolding proc_init
invalid_free_init created = proc_init created

unfoldable pub invalid_free_exit : Bool → Bool
invalid_free_exit proc_entry = false
