-- ===== src/Sync/Kthreads/Examples.antt =====
-- Loads in which the second thread, or none, cannot be created.
use linux_kernel_prog.Prelude.{
  ℕ, ◌≡◌, refl, ◌⊎◌, Bool, true, false, Option, none, some, [], ◌∷◌, arith, ◌==◌, if◌then◌else◌,
}
use linux_kernel_prog.Kernel.{err, Errno}
use linux_kernel_prog.Sync.Refcount.{Memory}
use linux_kernel_prog.Sync.Refcount.Sample.{counter}
use linux_kernel_prog.Sync.Kthreads.{
  run_threads, all_running, lockfree_list_init, refcount_example_init, kref_example_init,
}
use linux_kernel_prog.Sync.Kthreads.Cleanup.{
  FirstFailure, AllCreated, CleanedUp, lockfree_list_init-cases, refcount_example_init-cases,
}
use linux_kernel_prog.Sync.Kthreads.Cleanup.Queue.{kref_example_init-cases}

abbrev second_fails : ℕ → Option Errno
second_fails i = if i == 1 then some Errno.enomem else none

failed_load :
    lockfree_list_init second_fails ≡ record { ret = none; running = []; stopped = 0 ∷ [] }
unfolding lockfree_list_init run_threads
failed_load = refl

lockfree_list_init-cases_example :
    (AllCreated second_fails 0 3 × (lockfree_list_init second_fails ≡ all_running 3))
    ⊎ ((i : ℕ) × FirstFailure second_fails 0 3 i × CleanedUp i (lockfree_list_init second_fails))
lockfree_list_init-cases_example = lockfree_list_init-cases second_fails

refcount_example_init-cases_example :
    let r = refcount_example_init counter true second_fails in
    (m : Memory) × (r.1 ≡ some m)
    × ((AllCreated second_fails 0 4 × (r.0 ≡ all_running 4) × (m.live ≡ true) × (m.shared ≡ true))
        ⊎ ((i : ℕ) × FirstFailure second_fails 0 4 i × CleanedUp i r.0 × (m.live ≡ false)))
refcount_example_init-cases_example = refcount_example_init-cases counter second_fails (omega arith)

kref_example_init-cases_example :
    let r = kref_example_init true none (some Errno.enomem) none in
    ((◌≡◌ {A = Bool} true true)
      × (◌≡◌ {A = Option Errno} none none)
      × (some Errno.enomem ≡ none)
      × (◌≡◌ {A = Option Errno} none none)
      × (r ≡ (all_running 3, false)))
    ⊎ ((e : Errno) × (r.0.ret ≡ some (err e)) × (r.0.running ≡ []) × (r.1 ≡ true))
kref_example_init-cases_example = kref_example_init-cases true none (some Errno.enomem) none
