-- ===== src/Sync/Handoff.antt =====
-- sync/part4/kthread_sync.c and sync/part4/kthread_sync_waitq.c: a producer and a consumer that wait
-- for each other, the one through two semaphores, the other through a flag and a wait queue each.
pub mod Rounds
pub mod Unload
mod Examples
use linux_kernel_prog.Prelude.{ℕ, zero, suc, ◌-◌, ◌<◌, ◌≡◌, Bool, true, false, Option, none, some}
use linux_kernel_prog.Kernel.{Result, ok, err, Errno}

-- What the threads wait at: it is open while its value is not 0.
pub record Gate : Type 0 where
  pub take : ℕ → ℕ
  pub post : ℕ → ℕ

-- `down` and `up`.
abbrev pub semaphore : Gate
semaphore = record { take = λ n. n - 1; post = suc }

-- `cond = 0` behind `wait_event`, and `cond = 1`.
abbrev pub condition : Gate
condition = record { take = λ n. 0; post = λ n. 1 }

-- Where a thread stands: before it waits, between its wait and its signal to the other, before
-- `kthread_should_stop`, or at its end.
pub data Pc : Type 0 where
  waiting : Pc
  working : Pc
  checking : Pc
  finished : Pc

-- The gates of the producer and of the consumer, and how far `kthr_exit` is.
pub record System : Type 0 where
  pub prod_gate : ℕ
  pub cons_gate : ℕ
  pub prod : Pc
  pub cons : Pc
  pub stop_prod : Bool
  pub stop_cons : Bool
  pub produced : ℕ
  pub consumed : ℕ

-- `kthr_init` behind the creation of both threads.
abbrev pub started : System
started = record {
  prod_gate = 1;
  cons_gate = 0;
  prod = waiting;
  cons = waiting;
  stop_prod = false;
  stop_cons = false;
  produced = 0;
  consumed = 0;
}

abbrev pub after_check : (should_stop : Bool) → Pc
after_check true = finished
after_check false = waiting

-- A step of `prod_fct`, of `cons_fct` or of `kthr_exit`, which waits for the end of the producer
-- before it stops the consumer.
pub data Step (gate : Gate) (s : System) : System → Type 0 where
  prod_wait :
      s.prod ≡ waiting
      → 0 < s.prod_gate
      → Step gate s (record s { prod = working; prod_gate = gate.take s.prod_gate })
  prod_signal :
      s.prod ≡ working
      → Step gate s (record s {
        prod = checking;
        cons_gate = gate.post s.cons_gate;
        produced = suc s.produced;
      })
  prod_check : s.prod ≡ checking → Step gate s (record s { prod = after_check s.stop_prod })
  cons_wait :
      s.cons ≡ waiting
      → 0 < s.cons_gate
      → Step gate s (record s { cons = working; cons_gate = gate.take s.cons_gate })
  cons_signal :
      s.cons ≡ working
      → Step gate s (record s {
        cons = checking;
        prod_gate = gate.post s.prod_gate;
        consumed = suc s.consumed;
      })
  cons_check : s.cons ≡ checking → Step gate s (record s { cons = after_check s.stop_cons })
  stop_producer : s.stop_prod ≡ false → Step gate s (record s { stop_prod = true })
  stop_consumer :
      s.stop_prod ≡ true
      → s.prod ≡ finished
      → s.stop_cons ≡ false
      → Step gate s (record s { stop_cons = true })

pub data Reach (gate : Gate) (s : System) : System → Type 0 where
  start : Reach gate s s
  later : {t u : System} → Reach gate s t → Step gate t u → Reach gate s u

-- The result of the load, and whether the producer and the consumer run. A consumer that cannot be
-- created leaves the producer running.
unfoldable pub kthr_init : (producer consumer : Option Errno) → Result ℕ × Bool × Bool
kthr_init (some e) consumer = (err e, false, false)
kthr_init none (some e) = (err e, true, false)
kthr_init none none = (ok 0, true, true)
