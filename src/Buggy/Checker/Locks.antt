-- ===== src/Buggy/Checker/Locks.antt =====
-- The locks of a task: what a second call on a lock that it holds comes to, and what may sleep.
use linux_kernel_prog.Prelude.{ℕ, List, [], ◌∷◌, Bool, true, false, ◌==◌, ◌||◌, if◌then◌else◌}
use linux_kernel_prog.Buggy.Checker.{
  Lock, mutex, spin, reader, writer, sem_reader, rcu_bh, not_held, sleep_in_atomic, done, hung, M,
  ◌>>◌, report,
}

-- The second is not to be had while the first is held, by the task itself or by another.
abbrev pub conflicts : (held wanted : Lock) → Bool
conflicts (mutex a) (mutex b) = a == b
conflicts (spin a) (spin b) = a == b
conflicts (reader a) (writer b) = a == b
conflicts (writer a) (reader b) = a == b
conflicts (writer a) (writer b) = a == b
conflicts _ _ = false

abbrev pub same_lock : Lock → Lock → Bool
same_lock (mutex a) (mutex b) = a == b
same_lock (spin a) (spin b) = a == b
same_lock (reader a) (reader b) = a == b
same_lock (writer a) (writer b) = a == b
same_lock (sem_reader a) (sem_reader b) = a == b
same_lock rcu_bh rcu_bh = true
same_lock _ _ = false

-- A task that holds one of these must not sleep.
abbrev pub spins : Lock → Bool
spins (spin a) = true
spins (reader a) = true
spins (writer a) = true
spins rcu_bh = true
spins _ = false

abbrev pub any_lock : (Lock → Bool) → List Lock → Bool
any_lock p [] = false
any_lock p (l ∷ ls) = p l || any_lock p ls

abbrev pub drop_lock : Lock → List Lock → List Lock
drop_lock l [] = []
drop_lock l (k ∷ ks) = let rest = drop_lock l ks in if same_lock k l then ks else k ∷ rest

unfoldable pub acquire : Lock → M (Unit {0})
acquire l m =
    if any_lock (λ k. conflicts k l) m.held || any_lock (λ k. conflicts k l) m.others
    then hung m
    else done tt (record m { held = l ∷ m.held })

unfoldable pub release : Lock → M (Unit {0})
unfolding report
release l m =
    if any_lock (λ k. same_lock k l) m.held
    then done tt (record m { held = drop_lock l m.held })
    else report not_held m

-- `msleep`, and what a sleeping lock does first.
unfoldable pub may_sleep : M (Unit {0})
unfolding report
may_sleep m = if any_lock spins m.held then report sleep_in_atomic m else done tt m

unfoldable pub mutex_lock : ℕ → M (Unit {0})
unfolding may_sleep acquire
mutex_lock n = do may_sleep; acquire (mutex n)

unfoldable pub mutex_unlock : ℕ → M (Unit {0})
unfolding release
mutex_unlock n = release (mutex n)

unfoldable pub down_read : ℕ → M (Unit {0})
unfolding may_sleep acquire
down_read n = do may_sleep; acquire (sem_reader n)

unfoldable pub up_read : ℕ → M (Unit {0})
unfolding release
up_read n = release (sem_reader n)
