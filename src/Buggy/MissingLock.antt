-- ===== src/Buggy/MissingLock.antt =====
-- debug-lkms/buggy-modules/locking/missing_lock.c: the files of the module, and its load.
pub mod Threads
pub mod Trigger
pub mod Locked
pub mod Race
mod Examples
use linux_kernel_prog.Prelude.{
  ℕ, ◌≡◌, refl, ◌⊎◌, inl, inr, Bool, true, false, Option, none, some, List, [], ◌∷◌, ◌++◌, arith,
  codes, starts_with, leb, if◌then◌else◌, ◌+◌, Bool-cases, ◌<◌, ◌==◌,
}
use linux_kernel_prog.Kernel.{Result, ok, err, Errno}
use linux_kernel_prog.Interfaces.Counter.{Write}

-- `sizeof(cmd)`
abbrev pub cmd_size : ℕ
cmd_size = 16

-- What a thread runs.
pub data Body : Type 0 where
  race_thread_fn : Body
  race_thread_locked_fn : Body

-- A thread pointer: NULL, a thread, or an error pointer.
pub data Pointer : Type 0 where
  null : Pointer
  thread : Body → Pointer
  failed : Errno → Pointer

pub record Module : Type 0 where
  pub shared_counter : ℕ
  pub race_thread1 : Pointer
  pub race_thread2 : Pointer

abbrev pub no_threads : Module
no_threads = record { shared_counter = 0; race_thread1 = null; race_thread2 = null }

-- `kthread_run` for the second thread, then the return.
unfoldable pub run_second : Body → Option Errno → (count : ℕ) → Module → Result ℕ × Module
run_second body none count m = (ok count, record m { race_thread2 = thread body })
run_second body (some e) count m = (err e, record m { race_thread2 = failed e })

-- The counter is reset and two threads are created.
unfoldable pub run_both :
    Body → (first second : Option Errno) → (count : ℕ) → Module → Result ℕ × Module
unfolding run_second
run_both body none second count m =
    run_second body second count (record m { shared_counter = 0; race_thread1 = thread body })
run_both body (some e) second count m =
    (err e, record m { shared_counter = 0; race_thread1 = failed e })

-- The commands.
unfoldable pub run_command :
    (cmd : List ℕ) (first second : Option Errno) (count : ℕ) → Module → Result ℕ × Module
unfolding run_both
run_command cmd first second count m =
    if starts_with (codes "race") cmd
    then run_both race_thread_fn first second count m
    else if starts_with (codes "correct") cmd
    then run_both race_thread_locked_fn first second count m
    else if starts_with (codes "reset") cmd
    then (ok count, record m { shared_counter = 0 })
    else (ok count, m)

unfoldable pub trigger_write : Write → (first second : Option Errno) → Module → Result ℕ × Module
unfolding run_command
trigger_write w first second m =
    if leb cmd_size w.bytes then (err Errno.einval, m) else elim w.copied [
      | none ↦ (err Errno.efault, m)
      | some cmd ↦ run_command cmd first second w.bytes m
    ]

-- Both files, or none.
unfoldable pub missing_lock_init : (trigger status : Bool) → Result ℕ × Bool × Bool
missing_lock_init false status = (err Errno.enomem, false, false)
missing_lock_init true false = (err Errno.enomem, false, false)
missing_lock_init true true = (ok 0, true, true)

-- The threads that are stopped; an error pointer is not.
unfoldable pub stop_thread : Pointer → List Body
stop_thread null = []
stop_thread (failed e) = []
stop_thread (thread b) = b ∷ []

-- `missing_lock_exit`: both pointers.
unfoldable pub missing_lock_exit : Module → List Body
unfolding stop_thread
missing_lock_exit m = stop_thread m.race_thread1 ++ stop_thread m.race_thread2
