-- ===== src/Buggy/MissingLock/Examples.antt =====
-- The theorems on missing_lock.c at concrete writes and runs.
use linux_kernel_prog.Prelude.{
  ℕ, zero, suc, ◌+◌, ◌-◌, ◌*◌, ◌%◌, ◌^◌, ◌≤◌, ◌≡◌, refl, ◌⊎◌, none, some, Bool, false, [], ◌∷◌,
  arith, codes, get_elem?, weigh,
}
use mathlib.Core.Path.{subst}
use linux_kernel_prog.Kernel.{Errno}
use linux_kernel_prog.Interfaces.Counter.{Write}
use linux_kernel_prog.Buggy.MissingLock.{
  no_threads, race_thread_locked_fn, trigger_write, missing_lock_exit,
}
use linux_kernel_prog.Buggy.MissingLock.Threads.{
  System, LockedMove, RaceMove, Step, Reach, launched, loaded, top, finished,
}
use linux_kernel_prog.Buggy.MissingLock.Locked.{
  loading, waiting, AllFinished, locked-exclusive, locked-total,
}
use linux_kernel_prog.Buggy.MissingLock.Race.{duo, race-bound, race-lost}
use linux_kernel_prog.Buggy.MissingLock.Trigger.{Started, trigger_write-cases}

abbrev echo_correct : Write
echo_correct = record { bytes = 8; copied = some (codes "correct\n") }

trigger_write-cases_example :
    ((trigger_write echo_correct none (some Errno.enomem) no_threads).1 ≡ no_threads)
    ⊎ Started no_threads 8 (trigger_write echo_correct none (some Errno.enomem) no_threads)
trigger_write-cases_example = trigger_write-cases echo_correct none (some Errno.enomem) no_threads

-- The first thread runs; the error pointer of the second is not stopped.
stopped :
    missing_lock_exit (trigger_write echo_correct none (some Errno.enomem) no_threads).1
    ≡ race_thread_locked_fn ∷ []
unfolding trigger_write missing_lock_exit
stopped = refl

-- The first of two threads has the mutex and has read the counter.
abbrev reading : System
reading = record { shared_counter = 0; protect_counter = Bool.true; pcs = loaded 0 0 ∷ top 0 ∷ [] }

reading-Reach : Reach LockedMove (launched 2) reading
reading-Reach =
    Reach.later (Reach.later Reach.start (Step.run 0 refl (LockedMove.lock (omega arith) refl)))
      (Step.run 0 refl LockedMove.load)

locked-exclusive_example :
    (weigh loading reading.pcs + weigh waiting reading.pcs ≤ 1)
    × ((i k x : ℕ) → get_elem? reading.pcs i ≡ some (loaded k x) → x ≡ 0)
locked-exclusive_example = locked-exclusive 2 reading-Reach

race-lost_example : Reach RaceMove (launched 2) (record {
  shared_counter = 2000 - 1000;
  protect_counter = false;
  pcs = finished ∷ finished ∷ [];
})
race-lost_example = race-lost 1000 (omega arith)

race-bound_example : 2000 - 300 ≤ 2 * 1000
race-bound_example =
    race-bound 2 (race-lost 300 (omega arith))
      (AllFinished.more (AllFinished.more AllFinished.none))

-- The first of two threads alone, for `m` rounds with the mutex.
locked_first :
    (m k c : ℕ)
    → k + m ≤ 1000
    → c + m ≤ 2000
    → Reach LockedMove (launched 2) (duo c (top k) (top 0))
    → Reach LockedMove (launched 2) (duo (c + m) (top (k + m)) (top 0))
locked_first zero k c h room r =
    subst (λ z. Reach LockedMove (launched 2) (duo z (top (k + 0)) (top 0))) (omega arith)
      (subst (λ z. Reach LockedMove (launched 2) (duo c (top z) (top 0))) (omega arith) r)
locked_first (suc m) k c h room r =
    let value : (c + 1) % 2 ^ 32 ≡ suc c = omega arith in
    let r1 = Reach.later r (Step.run 0 refl (LockedMove.lock (omega arith) refl)) in
    let r2 = Reach.later r1 (Step.run 0 refl LockedMove.load) in
    let r3 = Reach.later r2 (Step.run 0 refl LockedMove.store) in
    let r4 = Reach.later r3 (Step.run 0 refl LockedMove.unlock) in
    let next = subst (λ z. Reach LockedMove (launched 2) (duo z (top (suc k)) (top 0))) value r4 in
    let rest = locked_first m (suc k) (suc c) (omega arith) (omega arith) next in
    subst (λ z. Reach LockedMove (launched 2) (duo z (top (k + suc m)) (top 0))) (omega arith)
      (subst (λ z. Reach LockedMove (launched 2) (duo (suc c + m) (top z) (top 0))) (omega arith)
        rest)

-- Then the second.
locked_second :
    (m k c : ℕ)
    → k + m ≤ 1000
    → c + m ≤ 2000
    → Reach LockedMove (launched 2) (duo c finished (top k))
    → Reach LockedMove (launched 2) (duo (c + m) finished (top (k + m)))
locked_second zero k c h room r =
    subst (λ z. Reach LockedMove (launched 2) (duo z finished (top (k + 0)))) (omega arith)
      (subst (λ z. Reach LockedMove (launched 2) (duo c finished (top z))) (omega arith) r)
locked_second (suc m) k c h room r =
    let value : (c + 1) % 2 ^ 32 ≡ suc c = omega arith in
    let r1 = Reach.later r (Step.run 1 refl (LockedMove.lock (omega arith) refl)) in
    let r2 = Reach.later r1 (Step.run 1 refl LockedMove.load) in
    let r3 = Reach.later r2 (Step.run 1 refl LockedMove.store) in
    let r4 = Reach.later r3 (Step.run 1 refl LockedMove.unlock) in
    let next = subst (λ z. Reach LockedMove (launched 2) (duo z finished (top (suc k)))) value r4 in
    let rest = locked_second m (suc k) (suc c) (omega arith) (omega arith) next in
    subst (λ z. Reach LockedMove (launched 2) (duo z finished (top (k + suc m)))) (omega arith)
      (subst (λ z. Reach LockedMove (launched 2) (duo (suc c + m) finished (top z))) (omega arith)
        rest)

both_finished : Reach LockedMove (launched 2) (duo 2000 finished finished)
both_finished =
    let r1 = locked_first 1000 0 0 (omega arith) (omega arith) Reach.start in
    let r2 = Reach.later r1 (Step.run 0 refl (LockedMove.finish (omega arith))) in
    let r3 = locked_second 1000 0 1000 (omega arith) (omega arith) r2 in
    Reach.later r3 (Step.run 1 refl (LockedMove.finish (omega arith)))

locked-total_example : (duo 2000 finished finished).shared_counter ≡ 2 * 1000 % 2 ^ 32
locked-total_example =
    locked-total 2 both_finished (AllFinished.more (AllFinished.more AllFinished.none))
