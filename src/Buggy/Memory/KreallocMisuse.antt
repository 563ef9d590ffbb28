-- ===== src/Buggy/Memory/KreallocMisuse.antt =====
-- debug-lkms/buggy-modules/memory/krealloc_misuse.c. Whether `krealloc` moves the object is an
-- argument: it may find room where the object is.
use linux_kernel_prog.Prelude.{
  ℕ, Option, none, some, List, Bool, true, false, codes, starts_with, set, if◌then◌else◌,
}
use linux_kernel_prog.Kernel.{Result, ok, err, Errno}
use linux_kernel_prog.Interfaces.Counter.{Write}
use linux_kernel_prog.Buggy.Checker.{
  done, M, ◌>>=◌, ◌>>◌, pure, answer, kmalloc, kfree, access_run, serve, proc_init,
}
use linux_kernel_prog.Buggy.Memory.{with_kmalloc}

-- In place, when the allocator grants it.
unfoldable pub resize : (p size : ℕ) → M (Option ℕ)
unfolding answer
resize p size m =
    if (answer m).0
    then done (some p)
        (record (answer m).1 { blocks = set m.blocks p (record { size = size; live = true }) })
    else done none (answer m).1

unfoldable pub krealloc : (moves : Bool) (p size : ℕ) → M (Option ℕ)
unfolding kmalloc kfree resize
krealloc true p size = do
  q ← kmalloc size
  elim q [ none ↦ pure none | some q ↦ do kfree p; pure (some q) ]
krealloc false p size = resize p size

unfoldable pub use_old : (moves : Bool) → M (Result (Unit {0}))
unfolding with_kmalloc krealloc access_run kfree
use_old moves = with_kmalloc 32 (λ p. do
  access_run p 0 6
  access_run p 0 6
  q ← krealloc moves p 4096
  elim q [
    | none ↦ do kfree p; pure (err Errno.enomem)
    | some q ↦ do access_run p 0 6; access_run p 0 20; kfree q; pure (ok tt)
  ])

unfoldable pub double_free : (moves : Bool) → M (Result (Unit {0}))
unfolding with_kmalloc krealloc kfree
double_free moves = with_kmalloc 64 (λ p. do
  q ← krealloc moves p 128
  elim q [
    | none ↦ do kfree p; pure (err Errno.enomem)
    | some q ↦ do kfree p; kfree q; pure (ok tt)
  ])

unfoldable pub command : (moves : Bool) → List ℕ → M (Result (Unit {0}))
unfolding use_old double_free
command moves cmd =
    if starts_with (codes "use_old") cmd
    then use_old moves
    else if starts_with (codes "double_free") cmd
    then double_free moves
    else pure (ok tt)

unfoldable pub trigger_write : (moves : Bool) → Write → M (Result ℕ)
unfolding serve command
trigger_write moves = serve 16 (command moves)

unfoldable pub krealloc_misuse_init : (created : Bool) → Result ℕ × Bool
unfolding proc_init
krealloc_misuse_init created = proc_init created

unfoldable pub krealloc_misuse_exit : Bool → Bool
krealloc_misuse_exit proc_entry = false
