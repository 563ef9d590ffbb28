-- ===== src/Buggy/Locking/Intended.antt =====
-- What each command of debug-lkms/buggy-modules/locking comes to while no lock is held before it.
use linux_kernel_prog.Prelude.{ℕ, ◌≡◌, ◌<◌, refl, some, List, [], ◌∷◌, ◌++◌, arith, codes}
use linux_kernel_prog.Kernel.{Result, ok}
use linux_kernel_prog.Interfaces.Counter.{Write}
use linux_kernel_prog.Buggy.Checker.{
  Report, not_held, sleep_in_atomic, Lock, spin, reader, writer, Machine, Outcome, done, hung, M,
}
use linux_kernel_prog.Buggy.Checker.Laws.{serve-command, serve-hung}
use linux_kernel_prog.Buggy.Locking.DoubleUnlock
use linux_kernel_prog.Buggy.Locking.RwlockMisuse
use linux_kernel_prog.Buggy.Locking.RwsemMisuse
use linux_kernel_prog.Buggy.Locking.SleepInAtomic
use linux_kernel_prog.Buggy.Locking.SpinRecursion
use linux_kernel_prog.Buggy.Locking.RcuMisuse

-- A command, by the file's name and its own.
pub data Command : Type 0 where
  double_unlock_mutex double_unlock_spinlock double_unlock_unbalanced : Command
  rwlock_misuse_upgrade rwlock_misuse_double_write : Command
  rwsem_misuse_down_in_spin sleep_in_atomic_spin_sleep spin_recursion_self : Command
  rcu_misuse_sleep_in_rcu : Command

abbrev pub name_of : Command → List ℕ
name_of double_unlock_mutex = codes "mutex"
name_of double_unlock_spinlock = codes "spinlock"
name_of double_unlock_unbalanced = codes "unbalanced"
name_of rwlock_misuse_upgrade = codes "upgrade"
name_of rwlock_misuse_double_write = codes "double_write"
name_of rwsem_misuse_down_in_spin = codes "down_in_spin"
name_of sleep_in_atomic_spin_sleep = codes "spin_sleep"
name_of spin_recursion_self = codes "self"
name_of rcu_misuse_sleep_in_rcu = codes "sleep_in_rcu"

abbrev pub handler_of : Command → Write → M (Result ℕ)
handler_of double_unlock_mutex = DoubleUnlock.trigger_write
handler_of double_unlock_spinlock = DoubleUnlock.trigger_write
handler_of double_unlock_unbalanced = DoubleUnlock.trigger_write
handler_of rwlock_misuse_upgrade = RwlockMisuse.trigger_write
handler_of rwlock_misuse_double_write = RwlockMisuse.trigger_write
handler_of rwsem_misuse_down_in_spin = RwsemMisuse.trigger_write
handler_of sleep_in_atomic_spin_sleep = SleepInAtomic.trigger_write
handler_of spin_recursion_self = SpinRecursion.trigger_write
handler_of rcu_misuse_sleep_in_rcu = RcuMisuse.trigger_write

-- A run that ends with one report and no lock held, or one that waits for itself with these locks.
pub data Ending : Type 0 where
  reported_once : Report → Ending
  waiting : List Lock → Ending

abbrev pub ending_of : Command → Ending
ending_of double_unlock_mutex = reported_once not_held
ending_of double_unlock_spinlock = reported_once not_held
ending_of double_unlock_unbalanced = reported_once not_held
ending_of rwlock_misuse_upgrade = waiting (reader 0 ∷ [])
ending_of rwlock_misuse_double_write = waiting (writer 0 ∷ [])
ending_of rwsem_misuse_down_in_spin = reported_once sleep_in_atomic
ending_of sleep_in_atomic_spin_sleep = reported_once sleep_in_atomic
ending_of spin_recursion_self = waiting (spin 0 ∷ [])
ending_of rcu_misuse_sleep_in_rcu = reported_once sleep_in_atomic

-- No lock is held, by the task or by another.
abbrev pub idle : Machine → Machine
idle m = record m { held = []; others = [] }

abbrev pub ended : {A : Type 0} → Ending → A → Machine → Outcome A
ended (reported_once r) a m = done a (record (idle m) { reports = m.reports ++ r ∷ [] })
ended (waiting ls) a m = hung (record (idle m) { held = ls })

-- While neither the task nor any other holds one of the locks, a command of the table, whatever text follows it in a write of less
-- than 16 bytes, ends with the one report of the table and every lock released, or waits forever for
-- a lock that the task itself holds.
pub locking-ends :
    (c : Command) (w : Write) (rest : List ℕ) (m : Machine)
    → w.bytes < 16
    → w.copied ≡ some (name_of c ++ rest)
    → handler_of c w (idle m) ≡ ended (ending_of c) (ok w.bytes) m
unfolding DoubleUnlock.trigger_write DoubleUnlock.command DoubleUnlock.mutex_twice
    DoubleUnlock.spinlock_twice DoubleUnlock.unbalanced RwlockMisuse.trigger_write
    RwlockMisuse.command RwlockMisuse.upgrade RwlockMisuse.double_write RwsemMisuse.trigger_write
    RwsemMisuse.command RwsemMisuse.down_in_spin SleepInAtomic.trigger_write SleepInAtomic.command
    SleepInAtomic.spin_sleep SpinRecursion.trigger_write SpinRecursion.command SpinRecursion.self
    RcuMisuse.trigger_write RcuMisuse.command RcuMisuse.sleep_in_rcu
locking-ends double_unlock_mutex w rest m short copied =
    serve-command 16 DoubleUnlock.command w (idle m) short copied refl
locking-ends double_unlock_spinlock w rest m short copied =
    serve-command 16 DoubleUnlock.command w (idle m) short copied refl
locking-ends double_unlock_unbalanced w rest m short copied =
    serve-command 16 DoubleUnlock.command w (idle m) short copied refl
locking-ends rwlock_misuse_upgrade w rest m short copied =
    serve-hung 16 RwlockMisuse.command w (idle m) short copied refl
locking-ends rwlock_misuse_double_write w rest m short copied =
    serve-hung 16 RwlockMisuse.command w (idle m) short copied refl
locking-ends rwsem_misuse_down_in_spin w rest m short copied =
    serve-command 24 RwsemMisuse.command w (idle m) (omega arith) copied refl
locking-ends sleep_in_atomic_spin_sleep w rest m short copied =
    serve-command 16 SleepInAtomic.command w (idle m) short copied refl
locking-ends spin_recursion_self w rest m short copied =
    serve-hung 16 SpinRecursion.command w (idle m) short copied refl
locking-ends rcu_misuse_sleep_in_rcu w rest m short copied =
    serve-command 24 RcuMisuse.command w (idle m) (omega arith) copied refl
