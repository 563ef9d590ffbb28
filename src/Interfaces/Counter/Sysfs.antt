-- ===== src/Interfaces/Counter/Sysfs.antt =====
-- interfaces/sysfs/counter_sysfs.c. sysfs hands `value_store` a string in kernel memory; `scan` is
-- `sscanf(buf, "%d", &value)` and `format` is `sprintf(buf, "%d\n", counter)`.
use linux_kernel_prog.Prelude.{
  ℕ, ◌+◌, ◌%◌, ◌^◌, Option, none, some, List, length, ◌==◌, if◌then◌else◌,
}
use linux_kernel_prog.Kernel.{Result, ok, err, Errno}
use linux_kernel_prog.Interfaces.Counter.{c_string}

unfoldable pub value_show : (format : ℕ → List ℕ) → ℕ → Result ℕ × List ℕ
value_show format counter = (ok (length (format counter)), format counter)

unfoldable pub value_store :
    (scan : List ℕ → Option ℕ) → (buf : List ℕ) (size : ℕ) → ℕ → Result ℕ × ℕ
unfolding c_string
value_store scan buf size counter = elim (scan (c_string buf)) [
  | none ↦ (err Errno.einval, counter)
  | some value ↦
      if value == 0
      then (ok size, 0)
      else if value == 1
      then (ok size, (counter + 1) % 2 ^ 32)
      else (err Errno.einval, counter)
]
