-- ===== src/Buggy/Memory/SlabCorruption.antt =====
-- debug-lkms/buggy-modules/memory/slab_corruption.c, for an `unsigned long` of eight bytes.
use linux_kernel_prog.Prelude.{ℕ, List, Bool, false, codes, starts_with, if◌then◌else◌}
use linux_kernel_prog.Kernel.{Result, ok}
use linux_kernel_prog.Interfaces.Counter.{Write}
use linux_kernel_prog.Buggy.Checker.{M, ◌>>◌, pure, at, kfree, access, access_run, serve, proc_init}
use linux_kernel_prog.Buggy.Memory.{with_kmalloc}

-- Two words behind the object, each a store of its own.
unfoldable pub corrupt : M (Result (Unit {0}))
unfolding with_kmalloc access kfree
corrupt =
    with_kmalloc 128 (λ ptr. do access ptr (at 128); access ptr (at 136); kfree ptr; pure (ok tt))

unfoldable pub redzones : M (Result (Unit {0}))
unfolding with_kmalloc access kfree
redzones =
    with_kmalloc 32 (λ ptr. do access ptr (at 32); access ptr (at 48); kfree ptr; pure (ok tt))

unfoldable pub poison : M (Result (Unit {0}))
unfolding with_kmalloc access access_run kfree
poison = with_kmalloc 64 (λ ptr. do
  access_run ptr 0 64
  kfree ptr
  access ptr (at 0)
  access ptr (at 32)
  access ptr (at 63)
  pure (ok tt))

unfoldable pub command : List ℕ → M (Result (Unit {0}))
unfolding corrupt redzones poison
command cmd =
    if starts_with (codes "corrupt") cmd
    then corrupt
    else if starts_with (codes "redzones") cmd
    then redzones
    else if starts_with (codes "poison") cmd
    then poison
    else pure (ok tt)

unfoldable pub trigger_write : Write → M (Result ℕ)
unfolding serve command
trigger_write = serve 16 command

unfoldable pub slab_corruption_init : (created : Bool) → Result ℕ × Bool
unfolding proc_init
slab_corruption_init created = proc_init created

unfoldable pub slab_corruption_exit : Bool → Bool
slab_corruption_exit proc_entry = false
