-- ===== src/Interfaces/Counter.antt =====
-- The counter behind interfaces/procfs/counter_procfs.c, interfaces/sysfs/counter_sysfs.c and
-- interfaces/debugfs/counter_debugfs.c. `static int counter` is its 32-bit pattern, so `counter++`
-- wraps, as the kernel's build flags make it do.
pub mod Procfs
pub mod Sysfs
pub mod Debugfs
pub mod History
pub mod Nodes
mod Examples
use linux_kernel_prog.Prelude.{ℕ, List, [], ◌∷◌, Option, ◌==◌, if◌then◌else◌}

-- `sizeof(input)`
abbrev pub input_size : ℕ
input_size = 32

-- A `write` system call: the byte count, and what `copy_from_user` brings in, or a fault.
pub record Write : Type 0 where
  pub bytes : ℕ
  pub copied : Option (List ℕ)

-- A C string ends at the first NUL byte.
unfoldable pub c_string : List ℕ → List ℕ
c_string [] = []
c_string (c ∷ cs) = if c == 0 then [] else c ∷ c_string cs
