-- ===== src/Buggy/MissingLock/Trigger.antt =====
-- What a write to the trigger file of missing_lock.c comes to.
use linux_kernel_prog.Prelude.{
  ℕ, ◌≡◌, refl, ◌⊎◌, inl, inr, Option, none, some, List, codes, starts_with, leb, Bool-cases,
  Option-cases,
}
use linux_kernel_prog.Kernel.{Result, ok, err, Errno}
use linux_kernel_prog.Interfaces.Counter.{Write}
use linux_kernel_prog.Buggy.MissingLock.{
  cmd_size, Body, race_thread_fn, race_thread_locked_fn, thread, failed, Module, run_second,
  run_both, run_command, trigger_write,
}

-- A write that started something: the counter is reset, and the pointers fit the result.
pub data Started (m : Module) (bytes : ℕ) : Result ℕ × Module → Type 0 where
  reset : Started m bytes (ok bytes, record m { shared_counter = 0 })
  both :
      (b : Body)
      → Started m bytes (
        ok bytes,
        record { shared_counter = 0; race_thread1 = thread b; race_thread2 = thread b },
      )
  no_first :
      (e : Errno)
      → Started m bytes (err e, record m { shared_counter = 0; race_thread1 = failed e })
  no_second :
      (b : Body) (e : Errno)
      → Started m bytes
          (err e, record { shared_counter = 0; race_thread1 = thread b; race_thread2 = failed e })

run_both-Started :
    (b : Body) (first second : Option Errno) (count : ℕ) (m : Module)
    → Started m count (run_both b first second count m)
unfolding run_both run_second
run_both-Started b none none count m = both b
run_both-Started b none (some e) count m = no_second b e
run_both-Started b (some e) second count m = no_first e

run_command-cases :
    (cmd : List ℕ) (first second : Option Errno) (count : ℕ) (m : Module)
    → ((run_command cmd first second count m).1 ≡ m)
      ⊎ Started m count (run_command cmd first second count m)
unfolding run_command
run_command-cases cmd first second count m = elim (Bool-cases (starts_with (codes "race") cmd)) [
  | inl e ↦ rw (run_command, e) (inr (run_both-Started race_thread_fn first second count m))
  | inr e ↦ elim (Bool-cases (starts_with (codes "correct") cmd)) [
    | inl f ↦
        rw (run_command, e, f) (inr (run_both-Started race_thread_locked_fn first second count m))
    | inr f ↦ elim (Bool-cases (starts_with (codes "reset") cmd)) [
      | inl g ↦ rw (run_command, e, f, g) (inr reset)
      | inr g ↦ rw (run_command, e, f, g) (inl refl)
    ]
  ]
]

-- A write leaves the module as it was, or it resets the counter and leaves the pointers as its
-- result says: the byte count with both threads created or neither touched, or the error of the
-- first thread that could not be created, which is then in that thread's pointer.
pub trigger_write-cases :
    (w : Write) (first second : Option Errno) (m : Module)
    → ((trigger_write w first second m).1 ≡ m) ⊎ Started m w.bytes (trigger_write w first second m)
unfolding trigger_write
trigger_write-cases w first second m = elim (Bool-cases (leb cmd_size w.bytes)) [
  | inl e ↦ rw (trigger_write, e) (inl refl)
  | inr e ↦ elim (Option-cases w.copied) [
    | inl f ↦ rw (trigger_write, e, f) (inl refl)
    | inr (cmd, f) ↦ rw (trigger_write, e, f) (run_command-cases cmd first second w.bytes m)
  ]
]
