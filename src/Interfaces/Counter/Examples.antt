-- ===== src/Interfaces/Counter/Examples.antt =====
-- Runs of the counter modules, with a scanner that reads one leading digit.
use linux_kernel_prog.Prelude.{
  ℕ, ◌-◌, ◌%◌, ◌^◌, ◌≡◌, refl, ◌⊎◌, ◌<◌, ◌+◌, Option, none, some, List, [], ◌∷◌, arith, ◌&&◌, leb,
  true, false, if◌then◌else◌,
}
use linux_kernel_prog.Kernel.{Errno, is_ok}
use linux_kernel_prog.Interfaces.Counter.{input_size, Write}
use linux_kernel_prog.Interfaces.Counter.Procfs
use linux_kernel_prog.Interfaces.Counter.Debugfs
use linux_kernel_prog.Interfaces.Counter.Sysfs
use linux_kernel_prog.Interfaces.Counter.History.{
  procfs_counter, commands, increments, procfs_counter-increments, value_store-counter_write,
  counter_write-err, counter_write-ok,
}
use linux_kernel_prog.Interfaces.Counter.Nodes.{
  procfs_counter_init, sysfs_counter_init, debugfs_counter_init, counter_init-atomic,
}

abbrev digit : List ℕ → Option ℕ
digit [] = none
digit (c ∷ cs) = if leb b'0' c && leb c b'9' then some (c - b'0') else none

abbrev echo_one : Write
echo_one = record { bytes = 2; copied = some (b'1' ∷ 10 ∷ []) }

abbrev echo_zero : Write
echo_zero = record { bytes = 2; copied = some (b'0' ∷ 10 ∷ []) }

abbrev echo_five : Write
echo_five = record { bytes = 2; copied = some (b'5' ∷ 10 ∷ []) }

abbrev history : List Write
history = echo_one ∷ echo_five ∷ echo_one ∷ echo_zero ∷ echo_one ∷ []

history_counter : procfs_counter digit history ≡ 2
unfolding procfs_counter Procfs.counter_write
history_counter = refl

procfs_counter-increments_example :
    procfs_counter digit history ≡ increments (commands digit history) % 2 ^ 32
procfs_counter-increments_example = procfs_counter-increments digit history

value_store-counter_write_example :
    (Sysfs.value_store digit (b'1' ∷ 10 ∷ []) 2 7 ≡ Procfs.counter_write digit echo_one 7)
    × (Debugfs.counter_write digit echo_one 7 ≡ Procfs.counter_write digit echo_one 7)
value_store-counter_write_example =
    value_store-counter_write digit echo_one (b'1' ∷ 10 ∷ []) 7 (omega arith) refl

counter_write-err_example : (Procfs.counter_write digit echo_five 7).1 ≡ 7
unfolding Procfs.counter_write
counter_write-err_example = counter_write-err digit echo_five 7 {e = Errno.einval} refl

counter_write-ok_example :
    (◌≡◌ {A = ℕ} 2 2)
    × (2 < input_size)
    × (((Procfs.counter_write digit echo_one 7).1 ≡ 0)
        ⊎ ((Procfs.counter_write digit echo_one 7).1 ≡ (7 + 1) % 2 ^ 32))
unfolding Procfs.counter_write
counter_write-ok_example = counter_write-ok digit echo_one 7 refl

counter_init-atomic_example :
    ((procfs_counter_init true).1.file ≡ is_ok (procfs_counter_init true).0)
    × ((sysfs_counter_init true none).1.file ≡ is_ok (sysfs_counter_init true none).0)
    × ((sysfs_counter_init true none).1.parent ≡ is_ok (sysfs_counter_init true none).0)
    × ((debugfs_counter_init true false).1.file ≡ is_ok (debugfs_counter_init true false).0)
    × ((debugfs_counter_init true false).1.parent ≡ is_ok (debugfs_counter_init true false).0)
counter_init-atomic_example = counter_init-atomic true true false none
