-- ===== src/Buggy/Locking/Deadlock.antt =====
-- debug-lkms/buggy-modules/locking/deadlock.c. A step is one call on a lock; the delays and the
-- messages between the calls are none. `lock_a` has the number 0 and `lock_b` the number 1.
pub mod Stuck
use linux_kernel_prog.Prelude.{
  ℕ, ◌≡◌, Option, none, some, List, Bool, true, false, codes, starts_with, leb, if◌then◌else◌,
}
use linux_kernel_prog.Kernel.{Result, ok, err, Errno}
use linux_kernel_prog.Interfaces.Counter.{Write}
use linux_kernel_prog.Buggy.Checker.{M, ◌>>◌, pure, proc_init}
use linux_kernel_prog.Buggy.Checker.Locks.{mutex_lock, mutex_unlock}

pub data Owner : Type 0 where
  one two : Owner

-- Where a thread is: before its first lock, with it, with both, with the first again, at the end.
pub data Position : Type 0 where
  starting has_first has_both has_first_again finished : Position

pub record System : Type 0 where
  pub lock_a : Option Owner
  pub lock_b : Option Owner
  pub thread1 : Position
  pub thread2 : Position

abbrev pub running : System
running = record { lock_a = none; lock_b = none; thread1 = starting; thread2 = starting }

pub data Step : System → System → Type 0 where
  -- `thread1_fn` takes lock_a and then lock_b.
  one_locks_a :
      (s : System)
      → s.thread1 ≡ starting
      → s.lock_a ≡ none
      → Step s (record s { lock_a = some one; thread1 = has_first })
  one_locks_b :
      (s : System)
      → s.thread1 ≡ has_first
      → s.lock_b ≡ none
      → Step s (record s { lock_b = some one; thread1 = has_both })
  one_unlocks_b :
      (s : System)
      → s.thread1 ≡ has_both
      → Step s (record s { lock_b = none; thread1 = has_first_again })
  one_unlocks_a :
      (s : System)
      → s.thread1 ≡ has_first_again
      → Step s (record s { lock_a = none; thread1 = finished })
  -- `thread2_fn` takes lock_b and then lock_a.
  two_locks_b :
      (s : System)
      → s.thread2 ≡ starting
      → s.lock_b ≡ none
      → Step s (record s { lock_b = some two; thread2 = has_first })
  two_locks_a :
      (s : System)
      → s.thread2 ≡ has_first
      → s.lock_a ≡ none
      → Step s (record s { lock_a = some two; thread2 = has_both })
  two_unlocks_a :
      (s : System)
      → s.thread2 ≡ has_both
      → Step s (record s { lock_a = none; thread2 = has_first_again })
  two_unlocks_b :
      (s : System)
      → s.thread2 ≡ has_first_again
      → Step s (record s { lock_b = none; thread2 = finished })

pub data Reach (s : System) : System → Type 0 where
  start : Reach s s
  later : {t u : System} → Reach s t → Step t u → Reach s u

-- The two thread pointers after `kthread_run` twice. An error is the pointer that IS_ERR sees.
pub record Threads : Type 0 where
  pub thread1 : Option (Result (Unit {0}))
  pub thread2 : Option (Result (Unit {0}))

-- The result of `trigger`, given what the two `kthread_run` come to, and whether the first thread
-- is stopped.
unfoldable pub run_both :
    (first second : Result (Unit {0})) (count : ℕ) → Threads → Result ℕ × Threads × Bool
run_both (err e) second count t = (err e, record t { thread1 = some (err e) }, false)
run_both (ok u) (err e) count t =
    (err e, record { thread1 = some (ok u); thread2 = some (err e) }, true)
run_both (ok u) (ok v) count t =
    (ok count, record { thread1 = some (ok u); thread2 = some (ok v) }, false)

-- The command `self`: one lock twice.
unfoldable pub self : M (Unit {0})
unfolding mutex_lock mutex_unlock
self = do mutex_lock 0; mutex_lock 0; mutex_unlock 0; mutex_unlock 0

-- The pointers are those of the module, and the array of the command has 16 bytes.
unfoldable pub trigger_write :
    (first second : Result (Unit {0})) → Write → Threads → M (Result ℕ × Threads)
unfolding run_both self
trigger_write first second w t =
    if leb 16 w.bytes then pure (err Errno.einval, t) else elim w.copied [
      | none ↦ pure (err Errno.efault, t)
      | some cmd ↦
          if starts_with (codes "trigger") cmd
          then pure ((run_both first second w.bytes t).0, (run_both first second w.bytes t).1)
          else if starts_with (codes "self") cmd
          then (do self; pure (ok w.bytes, t))
          else pure (ok w.bytes, t)
    ]

-- Which of the threads `kthread_stop` is called on at the unload.
abbrev pub is_thread : Option (Result (Unit {0})) → Bool
is_thread none = false
is_thread (some (err e)) = false
is_thread (some (ok u)) = true

unfoldable pub deadlock_init : (created : Bool) → Result ℕ × Bool
unfolding proc_init
deadlock_init created = proc_init created

unfoldable pub deadlock_exit : Threads → Bool × Bool
deadlock_exit t = (is_thread t.thread1, is_thread t.thread2)
