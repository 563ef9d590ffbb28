-- ===== src/Interfaces/Counter/Debugfs.antt =====
-- interfaces/debugfs/counter_debugfs.c. `scan` is `sscanf(input, "%d", &value)`, and `format` is
-- `seq_printf(m, "%d\n", counter)`.
use linux_kernel_prog.Prelude.{ℕ, ◌+◌, ◌%◌, ◌^◌, Option, none, some, List, ◌==◌, leb, if◌then◌else◌}
use linux_kernel_prog.Kernel.{Result, ok, err, Errno}
use linux_kernel_prog.Interfaces.Counter.{input_size, Write, c_string}

unfoldable pub counter_show : (format : ℕ → List ℕ) → ℕ → Result ℕ × List ℕ
counter_show format counter = (ok 0, format counter)

-- `single_open(file, counter_show, NULL)`: a reader gets what `counter_show` prints.
unfoldable pub counter_open : (format : ℕ → List ℕ) → ℕ → Result ℕ × List ℕ
counter_open format = counter_show format

unfoldable pub counter_write : (scan : List ℕ → Option ℕ) → Write → ℕ → Result ℕ × ℕ
unfolding c_string
counter_write scan w counter =
    if leb input_size w.bytes then (err Errno.einval, counter) else elim w.copied [
      | none ↦ (err Errno.efault, counter)
      | some input ↦ elim (scan (c_string input)) [
        | none ↦ (err Errno.einval, counter)
        | some value ↦
            if value == 0
            then (ok w.bytes, 0)
            else if value == 1
            then (ok w.bytes, (counter + 1) % 2 ^ 32)
            else (err Errno.einval, counter)
      ]
    ]
