-- ===== src/Sync/Handoff/Examples.antt =====
-- The theorems on the producer and the consumer with semaphores and with flags.
use linux_kernel_prog.Prelude.{◌+◌, ◌≤◌, ◌≡◌, refl, true, arith}
use linux_kernel_prog.Sync.Handoff.{
  semaphore, condition, waiting, checking, finished, System, started, Step, prod_wait, prod_signal,
  Reach, start, later,
}
use linux_kernel_prog.Sync.Handoff.Rounds.{IsGate, handoff-alternates}
use linux_kernel_prog.Sync.Handoff.Unload.{handoff-hangs}

semaphore-IsGate : IsGate semaphore
semaphore-IsGate = record { closes = refl; opens = refl }

condition-IsGate : IsGate condition
condition-IsGate = record { closes = refl; opens = refl }

-- The producer has produced once.
abbrev signalled : System
signalled = record started { prod_gate = 0; cons_gate = 1; prod = checking; produced = 1 }

signalled-Reach : Reach condition started signalled
signalled-Reach = later (later start (prod_wait refl (omega arith))) (prod_signal refl)

handoff-alternates_example : (0 + 0 ≤ 1) × (0 ≤ 1) × (1 ≤ 0 + 1)
handoff-alternates_example = handoff-alternates condition condition-IsGate signalled-Reach

handoff-hangs_example :
    (s : System) × Reach semaphore started s
    × (s.consumed ≡ 3)
    × (s.stop_cons ≡ true)
    × (s.prod ≡ finished)
    × (s.cons ≡ waiting)
    × ((t : System) → ¬ Step semaphore s t)
handoff-hangs_example = handoff-hangs semaphore semaphore-IsGate 2
