-- ===== src/Interfaces/Counter/Nodes.antt =====
-- `counter_init` and `counter_exit` of the three counter modules: which file-system nodes exist.
-- What the kernel's calls return is an argument: whether a node was created, or the group's error.
use linux_kernel_prog.Prelude.{
  ℕ, ◌≡◌, Bool, true, false, not, Option, none, some, arith, if◌then◌else◌,
}
use linux_kernel_prog.Kernel.{Result, ok, err, Errno, is_ok}

pub record Nodes : Type 0 where
  pub parent : Bool  -- the kobject or the debugfs directory
  pub file : Bool  -- the proc entry, the attribute group or the debugfs file

abbrev pub no_nodes : Nodes
no_nodes = record { parent = false; file = false }

unfoldable pub procfs_counter_init : (created : Bool) → Result ℕ × Nodes
procfs_counter_init created =
    if not created then (err Errno.enomem, no_nodes) else (ok 0, record no_nodes { file = true })

unfoldable pub procfs_counter_exit : Nodes → Nodes
procfs_counter_exit n = record n { file = false }

unfoldable pub sysfs_counter_init : (created : Bool) → (group : Option Errno) → Result ℕ × Nodes
sysfs_counter_init created group =
    if not created then (err Errno.enomem, no_nodes) else elim group [
      | some e ↦ (err e, no_nodes)
      | none ↦ (ok 0, record { parent = true; file = true })
    ]

unfoldable pub sysfs_counter_exit : Nodes → Nodes
sysfs_counter_exit n = record { parent = false; file = false }

unfoldable pub debugfs_counter_init : (dir file : Bool) → Result ℕ × Nodes
debugfs_counter_init dir file =
    if not dir
    then (err Errno.enomem, no_nodes)
    else if not file
    then (err Errno.enomem, no_nodes)
    else (ok 0, record { parent = true; file = true })

unfoldable pub debugfs_counter_exit : Nodes → Nodes
debugfs_counter_exit n = record { parent = false; file = false }

-- Each of the three modules has its file exactly when its load succeeds, and its parent node never
-- stays behind without the file, whatever the kernel's calls return.
pub counter_init-atomic :
    (created dir file : Bool) (group : Option Errno)
    → ((procfs_counter_init created).1.file ≡ is_ok (procfs_counter_init created).0)
      × ((sysfs_counter_init created group).1.file ≡ is_ok (sysfs_counter_init created group).0)
      × ((sysfs_counter_init created group).1.parent ≡ is_ok (sysfs_counter_init created group).0)
      × ((debugfs_counter_init dir file).1.file ≡ is_ok (debugfs_counter_init dir file).0)
      × ((debugfs_counter_init dir file).1.parent ≡ is_ok (debugfs_counter_init dir file).0)
unfolding procfs_counter_init sysfs_counter_init debugfs_counter_init
counter_init-atomic created dir file group = ground arith

-- After a successful or a failed load an unload leaves no node of any of the three modules.
pub counter_exit-clean :
    (created dir file : Bool) (group : Option Errno)
    → (procfs_counter_exit (procfs_counter_init created).1 ≡ no_nodes)
      × (sysfs_counter_exit (sysfs_counter_init created group).1 ≡ no_nodes)
      × (debugfs_counter_exit (debugfs_counter_init dir file).1 ≡ no_nodes)
unfolding procfs_counter_init sysfs_counter_init debugfs_counter_init procfs_counter_exit
    sysfs_counter_exit debugfs_counter_exit
counter_exit-clean created dir file group = ground arith
