-- ===== src/Sync/Pair.antt =====
-- sync/part1/kthread_semlck.c and sync/part1/kthread_spin.c: a writer sets the two fields of a
-- structure under a lock and a reader reads them, while an unload frees the structure.
pub mod Consistent
pub mod Freed
mod Examples
use linux_kernel_prog.Prelude.{ℕ, ◌≡◌, ◌⊎◌, Bool, true, false, not, ◌&&◌, ◌||◌, Option, none, some}
use linux_kernel_prog.Kernel.{Result, ok, err, Errno}

-- `kthr_writer`: before the lock, with it, behind each of its writes, and at its end.
pub data Writer : Type 0 where
  outside : Writer
  locked : Writer
  wrote_a : Writer
  wrote_b : Writer
  ended : Writer

-- `kthr_reader`, with what it has read.
pub data Reader : Type 0 where
  outside : Reader
  locked : Reader
  read_a : ℕ → Reader
  read_b : ℕ → ℕ → Reader
  ended : Reader

pub record PrivData : Type 0 where
  pub a : ℕ
  pub b : ℕ

pub record System : Type 0 where
  pub p : PrivData
  pub live : Bool  -- whether `p` is allocated
  pub held : Bool  -- whether the semaphore or the spinlock is taken
  pub writer : Writer
  pub reader : Reader
  pub used_freed : Bool  -- whether `p` was used behind its `kfree`

abbrev pub data_init : PrivData
data_init = record { a = 0; b = 0 }

-- `kthr_init` with both threads created.
abbrev pub started : System
started = record {
  p = data_init;
  live = true;
  held = false;
  writer = Writer.outside;
  reader = Reader.outside;
  used_freed = false;
}

-- Whether the use of the lock is a use of freed memory: the spinlock stands in the structure, the
-- semaphore does not.
abbrev pub lock_freed : (in_structure : Bool) → System → Bool
lock_freed in_structure s = in_structure && not s.live

-- Each access is a step. A thread that waits for the semaphore can be interrupted, and then ends.
-- `kthr_exit` waits for no thread. What is read from freed memory is any number, and a lock that is
-- freed may let in anyone.
pub data Step (in_structure : Bool) (s : System) : System → Type 0 where
  write_lock :
      s.writer ≡ Writer.outside
      → (s.held ≡ false) ⊎ (lock_freed in_structure s ≡ true)
      → Step in_structure s (record s {
        held = true;
        writer = Writer.locked;
        used_freed = s.used_freed || lock_freed in_structure s;
      })
  write_a :
      s.writer ≡ Writer.locked
      → s.live ≡ true
      → Step in_structure s (record s { p = record s.p { a = 10 }; writer = Writer.wrote_a })
  write_b :
      s.writer ≡ Writer.wrote_a
      → s.live ≡ true
      → Step in_structure s (record s { p = record s.p { b = 20 }; writer = Writer.wrote_b })
  write_unlock :
      s.writer ≡ Writer.wrote_b
      → Step in_structure s (record s {
        held = false;
        writer = Writer.ended;
        used_freed = s.used_freed || lock_freed in_structure s;
      })
  write_interrupted :
      s.writer ≡ Writer.outside → Step in_structure s (record s { writer = Writer.ended })
  write_a_freed :
      s.writer ≡ Writer.locked
      → s.live ≡ false
      → Step in_structure s (record s { writer = Writer.wrote_a; used_freed = true })
  write_b_freed :
      s.writer ≡ Writer.wrote_a
      → s.live ≡ false
      → Step in_structure s (record s { writer = Writer.wrote_b; used_freed = true })
  read_lock :
      s.reader ≡ Reader.outside
      → (s.held ≡ false) ⊎ (lock_freed in_structure s ≡ true)
      → Step in_structure s (record s {
        held = true;
        reader = Reader.locked;
        used_freed = s.used_freed || lock_freed in_structure s;
      })
  read_a :
      s.reader ≡ Reader.locked
      → s.live ≡ true
      → Step in_structure s (record s { reader = Reader.read_a s.p.a })
  read_b :
      {x : ℕ}
      → s.reader ≡ Reader.read_a x
      → s.live ≡ true
      → Step in_structure s (record s { reader = Reader.read_b x s.p.b })
  read_a_freed :
      (x : ℕ)
      → s.reader ≡ Reader.locked
      → s.live ≡ false
      → Step in_structure s (record s { reader = Reader.read_a x; used_freed = true })
  read_b_freed :
      {x : ℕ} (y : ℕ)
      → s.reader ≡ Reader.read_a x
      → s.live ≡ false
      → Step in_structure s (record s { reader = Reader.read_b x y; used_freed = true })
  read_unlock :
      {x y : ℕ}
      → s.reader ≡ Reader.read_b x y
      → Step in_structure s (record s {
        held = false;
        reader = Reader.ended;
        used_freed = s.used_freed || lock_freed in_structure s;
      })
  read_interrupted :
      s.reader ≡ Reader.outside → Step in_structure s (record s { reader = Reader.ended })
  exit : s.live ≡ true → Step in_structure s (record s { live = false })

pub data Reach (in_structure : Bool) (s : System) : System → Type 0 where
  start : Reach in_structure s s
  later : {t u : System} → Reach in_structure s t → Step in_structure t u → Reach in_structure s u

-- The result of the load, and whether each thread runs; `none` where the allocation fails, which is
-- not tested before `data_init` writes through the pointer.
unfoldable pub kthr_init :
    (allocated : Bool) (first second : Option Errno) → Option (Result ℕ × Bool × Bool)
kthr_init false first second = none
kthr_init true (some e) second = some (err e, false, false)
kthr_init true none (some e) = some (err e, true, false)
kthr_init true none none = some (ok 0, true, true)
