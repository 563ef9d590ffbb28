-- ===== src/Sync/Kthreads/Cleanup/Queue.antt =====
-- The loads of lockless_queue.c and kref_example.c.
use linux_kernel_prog.Prelude.{◌≡◌, refl, ◌⊎◌, inl, inr, Bool, true, false, Option, none, some, []}
use linux_kernel_prog.Kernel.{err, Errno}
use linux_kernel_prog.Sync.Kthreads.{all_running, kref_example_init}

-- `kref_example_init` runs three threads and keeps its reference; or it returns the error of the
-- step that failed, with no thread left running, and has put its reference if the object exists.
pub kref_example_init-cases :
    (allocated : Bool) (first second third : Option Errno)
    → let r = kref_example_init allocated first second third in
      ((allocated ≡ true)
        × (first ≡ none)
        × (second ≡ none)
        × (third ≡ none)
        × (r ≡ (all_running 3, false)))
      ⊎ ((e : Errno) × (r.0.ret ≡ some (err e)) × (r.0.running ≡ []) × (r.1 ≡ allocated))
unfolding kref_example_init
kref_example_init-cases false first second third = inr (_, refl, refl, refl)
kref_example_init-cases true (some e) second third = inr (e, refl, refl, refl)
kref_example_init-cases true none (some e) third = inr (e, refl, refl, refl)
kref_example_init-cases true none none (some e) = inr (e, refl, refl, refl)
kref_example_init-cases true none none none = inl (refl, refl, refl, refl, refl)
