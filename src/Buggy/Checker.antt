-- ===== src/Buggy/Checker.antt =====
-- What the modules of debug-lkms/buggy-modules do to the kernel, watched as its sanitizers and its
-- lock checker would: a wrong step is reported and changes nothing, and the run goes on.
pub mod Laws
pub mod Newest
pub mod Locks
use linux_kernel_prog.Prelude.{
  ℕ, zero, suc, ◌+◌, Option, none, some, List, [], ◌∷◌, ◌++◌, Bool, true, false, ◌&&◌, ◌||◌, ◌==◌,
  ltb, leb, length, get_elem?, set, if◌then◌else◌,
}
use linux_kernel_prog.Kernel.{Result, ok, err, Errno}
use linux_kernel_prog.Interfaces.Counter.{Write}

pub data Report : Type 0 where
  out_of_bounds use_after_free double_free invalid_free : Report
  not_held sleep_in_atomic no_grace_period no_read_lock : Report

-- A lock, by its number, and how it is taken.
pub data Lock : Type 0 where
  mutex spin reader writer sem_reader : ℕ → Lock
  rcu_bh : Lock

-- An object of the heap.
pub record Block : Type 0 where
  pub size : ℕ
  pub live : Bool

-- The objects by their number, what the allocator answers to the next calls, the locks that the
-- writing task holds and those that other tasks hold and keep, the pointer that rcu_misuse.c
-- publishes, and the reports, the oldest first.
pub record Machine : Type 0 where
  pub blocks : List Block
  pub answers : List Bool
  pub held : List Lock
  pub others : List Lock
  pub global_ptr : Option ℕ
  pub reports : List Report

-- A run that comes to its end, or one that waits forever for a lock.
pub data Outcome (A : Type 0) : Type 0 where
  done : A → Machine → Outcome A
  hung : Machine → Outcome A

abbrev pub M : Type 0 → Type 0
M A = Machine → Outcome A

abbrev pub and_then : {A B : Type 0} → Outcome A → (A → M B) → Outcome B
and_then (done a m) f = f a m
and_then (hung m) f = hung m

infixl 5 ◌>>=◌ ◌>>◌
abbrev pub ◌>>=◌ : {A B : Type 0} → M A → (A → M B) → M B
◌>>=◌ c f m = and_then (c m) f

abbrev pub ◌>>◌ : {A B : Type 0} → M A → M B → M B
◌>>◌ c d m = and_then (c m) (λ _. d)

abbrev pub pure : {A : Type 0} → A → M A
pure a m = done a m

unfoldable pub report : Report → M (Unit {0})
report r m = done tt (record m { reports = m.reports ++ r ∷ [] })

-- `kmalloc`, with the body to run on the new object, or `-ENOMEM`. The allocator grants what it has
-- no other answer for.
abbrev new_block : ℕ → Machine → Machine
new_block size m = record m { blocks = m.blocks ++ record { size = size; live = true } ∷ [] }

unfoldable pub answer : Machine → Bool × Machine
answer m = elim m.answers [ [] ↦ (true, m) | b ∷ bs ↦ (b, record m { answers = bs }) ]

unfoldable pub kmalloc : ℕ → M (Option ℕ)
unfolding answer
kmalloc size m =
    if (answer m).0
    then done (some (length m.blocks)) (new_block size (answer m).1)
    else done none (answer m).1

-- `kfree` of an object's start.
unfoldable pub free_block : ℕ → Option Block → M (Unit {0})
unfolding report
free_block p none m = report invalid_free m
free_block p (some b) m =
    if b.live
    then done tt (record m { blocks = set m.blocks p (record b { live = false }) })
    else report double_free m

unfoldable pub kfree : ℕ → M (Unit {0})
unfolding free_block
kfree p m = free_block p (get_elem? m.blocks p) m

-- `kfree` of what no object starts at.
unfoldable pub kfree_invalid : M (Unit {0})
unfolding report
kfree_invalid = report invalid_free

-- A place relative to an object's start.
pub data Place : Type 0 where
  at : ℕ → Place
  before : ℕ → Place

unfoldable pub within : Place → ℕ → Bool
within (at i) size = ltb i size
within (before i) size = false

unfoldable pub access_block : Place → Option Block → M (Unit {0})
unfolding report within
access_block place none m = report use_after_free m
access_block place (some b) m =
    if b.live
    then (if within place b.size then done tt m else report out_of_bounds m)
    else (if within place b.size then report use_after_free m else report out_of_bounds m)

-- A read or a write of one byte, or of an aligned word by its first byte, whose value no later step
-- depends on.
unfoldable pub access : ℕ → Place → M (Unit {0})
unfolding access_block
access p place m = access_block place (get_elem? m.blocks p) m

-- Bytes one after the other, from an offset on.
unfoldable pub access_run : ℕ → (from count : ℕ) → M (Unit {0})
unfolding access
access_run p from zero = pure tt
access_run p from (suc n) = do access p (at from); access_run p (suc from) n

-- Bytes before the start, the lowest first.
unfoldable pub access_before : ℕ → (count : ℕ) → M (Unit {0})
unfolding access
access_before p zero = pure tt
access_before p (suc n) = do access p (before (suc n)); access_before p n

-- What every `trigger_write` does before it looks at the command.
unfoldable pub serve : (size : ℕ) → (List ℕ → M (Result (Unit {0}))) → Write → M (Result ℕ)
serve size command w = if leb size w.bytes then pure (err Errno.einval) else elim w.copied [
  | none ↦ pure (err Errno.efault)
  | some cmd ↦ do r ← command cmd; elim r [ err e ↦ pure (err e) | ok _ ↦ pure (ok w.bytes) ]
]

-- `proc_create` for the trigger file, and `proc_remove`.
unfoldable pub proc_init : (created : Bool) → Result ℕ × Bool
proc_init true = (ok 0, true)
proc_init false = (err Errno.enomem, false)
