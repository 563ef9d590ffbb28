-- ===== src/Buggy/Locking/RcuMisuse.antt =====
-- debug-lkms/buggy-modules/locking/rcu_misuse.c. An item has four bytes of value and 16 of
-- `rcu_head`, with four between them.
use linux_kernel_prog.Prelude.{
  ℕ, Option, none, some, List, Bool, false, codes, starts_with, if◌then◌else◌,
}
use linux_kernel_prog.Kernel.{Result, ok, err, Errno}
use linux_kernel_prog.Interfaces.Counter.{Write}
use linux_kernel_prog.Buggy.Checker.{
  rcu_bh, no_grace_period, no_read_lock, done, M, ◌>>=◌, ◌>>◌, pure, report, kmalloc, kfree,
  access_run, serve, proc_init,
}
use linux_kernel_prog.Buggy.Checker.Locks.{acquire, release, may_sleep}

unfoldable pub get_global : M (Option ℕ)
get_global m = done m.global_ptr m

-- `rcu_assign_pointer`
unfoldable pub set_global : Option ℕ → M (Unit {0})
set_global p m = done tt (record m { global_ptr = p })

unfoldable pub read_no_lock : M (Result (Unit {0}))
unfolding get_global report access_run
read_no_lock = do
  report no_read_lock
  p ← get_global
  elim p [ none ↦ pure (ok tt) | some p ↦ do access_run p 0 4; pure (ok tt) ]

unfoldable pub free_no_sync : M (Result (Unit {0}))
unfolding get_global set_global report kfree
free_no_sync = do
  old ← get_global
  set_global none
  elim old [ none ↦ pure (ok tt) | some old ↦ do report no_grace_period; kfree old; pure (ok tt) ]

unfoldable pub sleep_in_rcu : M (Result (Unit {0}))
unfolding acquire release may_sleep
sleep_in_rcu = do acquire rcu_bh; may_sleep; release rcu_bh; pure (ok tt)

unfoldable pub init_item : M (Result (Unit {0}))
unfolding kmalloc access_run set_global
init_item = do
  p ← kmalloc 24
  elim p [
    | none ↦ pure (err Errno.enomem)
    | some p ↦ do access_run p 0 4; set_global (some p); access_run p 0 4; pure (ok tt)
  ]

unfoldable pub command : List ℕ → M (Result (Unit {0}))
unfolding read_no_lock free_no_sync sleep_in_rcu init_item
command cmd =
    if starts_with (codes "read_no_lock") cmd
    then read_no_lock
    else if starts_with (codes "free_no_sync") cmd
    then free_no_sync
    else if starts_with (codes "sleep_in_rcu") cmd
    then sleep_in_rcu
    else if starts_with (codes "init") cmd
    then init_item
    else pure (ok tt)

unfoldable pub trigger_write : Write → M (Result ℕ)
unfolding serve command
trigger_write = serve 24 command

unfoldable pub rcu_misuse_init : (created : Bool) → Result ℕ × Bool
unfolding proc_init
rcu_misuse_init created = proc_init created

unfoldable pub rcu_misuse_exit : (proc_entry : Bool) → M Bool
unfolding get_global kfree
rcu_misuse_exit proc_entry = do
  p ← get_global
  elim p [ none ↦ pure false | some p ↦ do kfree p; pure false ]
