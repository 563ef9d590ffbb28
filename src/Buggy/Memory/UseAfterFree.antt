-- ===== src/Buggy/Memory/UseAfterFree.antt =====
-- debug-lkms/buggy-modules/memory/use_after_free.c. Its `leaked_ptr` is NULL after every command.
use linux_kernel_prog.Prelude.{ℕ, none, some, List, Bool, false, codes, starts_with, if◌then◌else◌}
use linux_kernel_prog.Kernel.{Result, ok}
use linux_kernel_prog.Interfaces.Counter.{Write}
use linux_kernel_prog.Buggy.Checker.{
  M, ◌>>=◌, ◌>>◌, pure, kmalloc, kfree, access_run, serve, proc_init,
}
use linux_kernel_prog.Buggy.Memory.{with_kmalloc}

-- The text has 30 bytes with its NUL; it is printed once before the object is freed. What the print
-- after that reads, up to the first NUL that it finds, is what is in freed memory: `seen` bytes.
unfoldable pub trigger : (seen : ℕ) → M (Result (Unit {0}))
unfolding with_kmalloc access_run kfree
trigger seen = with_kmalloc 128 (λ ptr. do
  access_run ptr 0 30
  access_run ptr 0 30
  kfree ptr
  access_run ptr 0 seen
  access_run ptr 0 30
  pure (ok tt))

unfoldable pub leak : M (Result (Unit {0}))
unfolding kmalloc access_run
leak = do
  leaked_ptr ← kmalloc 256
  elim leaked_ptr [ none ↦ pure (ok tt) | some p ↦ do access_run p 0 14; pure (ok tt) ]

unfoldable pub command : (seen : ℕ) → List ℕ → M (Result (Unit {0}))
unfolding trigger leak
command seen cmd =
    if starts_with (codes "trigger") cmd
    then trigger seen
    else if starts_with (codes "leak") cmd
    then leak
    else pure (ok tt)

unfoldable pub trigger_write : (seen : ℕ) → Write → M (Result ℕ)
unfolding serve command
trigger_write seen = serve 16 (command seen)

unfoldable pub use_after_free_init : (created : Bool) → Result ℕ × Bool
unfolding proc_init
use_after_free_init created = proc_init created

unfoldable pub use_after_free_exit : Bool → Bool
use_after_free_exit proc_entry = false
