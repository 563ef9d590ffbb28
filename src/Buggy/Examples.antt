-- ===== src/Buggy/Examples.antt =====
-- The theorems on debug-lkms/buggy-modules/memory and locking at concrete writes.
use linux_kernel_prog.Prelude.{
  ℕ, ◌≡◌, ◌⊎◌, inl, refl, none, some, List, [], ◌∷◌, true, arith, codes,
}
use linux_kernel_prog.Kernel.{ok}
use linux_kernel_prog.Interfaces.Counter.{Write}
use linux_kernel_prog.Buggy.Checker.{Machine, done, double_free, answer}
use linux_kernel_prog.Buggy.Memory.Table
use linux_kernel_prog.Buggy.Memory.Intended.{after, commands-reports}
use linux_kernel_prog.Buggy.Memory.KreallocMisuse
use linux_kernel_prog.Buggy.Memory.Resized.{krealloc-double}
use linux_kernel_prog.Buggy.Locking.Intended
use linux_kernel_prog.Buggy.Locking.Intended.{idle, ended, ending_of, locking-ends}
use linux_kernel_prog.Buggy.Locking.Deadlock.{System, running, Step, Reach, start}
use linux_kernel_prog.Buggy.Locking.Deadlock.Stuck.{
  Going, Ended, Crossed, crossed, crossed-Reach, threads-progress, threads-deadlock,
}

-- A kernel in which nothing has happened, and whose allocator grants everything.
abbrev quiet : Machine
quiet = record {
  blocks = [];
  answers = [];
  held = [];
  others = [];
  global_ptr = none;
  reports = [];
}

abbrev written : List ℕ → Write
written text = record { bytes = 12; copied = some text }

commands-reports_example :
    Table.handler_of 30 Table.buffer_overflow_overflow (written (codes "overflow\n")) quiet
    ≡ done (ok 12) (after 30 Table.buffer_overflow_overflow quiet)
unfolding answer
commands-reports_example =
    commands-reports 30 Table.buffer_overflow_overflow (written (codes "overflow\n")) (codes "\n")
      quiet (omega arith) (omega arith) refl refl

krealloc-double_example :
    (v : Machine) × (KreallocMisuse.trigger_write true (written (codes "double_free\n")) quiet
      ≡ done (ok 12) v)
    × (v.reports ≡ double_free ∷ [])
unfolding answer
krealloc-double_example =
    krealloc-double quiet refl refl true (written (codes "double_free\n")) (codes "\n")
      (omega arith) refl

locking-ends_example :
    Intended.handler_of Intended.rwlock_misuse_upgrade (written (codes "upgrade\n")) (idle quiet)
    ≡ ended (ending_of Intended.rwlock_misuse_upgrade) (ok 12) quiet
locking-ends_example =
    locking-ends Intended.rwlock_misuse_upgrade (written (codes "upgrade\n")) (codes "\n") quiet
      (omega arith) refl

threads-progress_example : Going crossed ⊎ (Ended crossed ⊎ Crossed crossed)
threads-progress_example = threads-progress crossed-Reach

threads-deadlock_example : (t : System) × Reach running t × Crossed t × ((u : System) → ¬ Step t u)
threads-deadlock_example = threads-deadlock running start (inl refl) (inl refl)
