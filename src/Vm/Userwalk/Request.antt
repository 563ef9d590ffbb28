-- ===== src/Vm/Userwalk/Request.antt =====
-- The debugfs files of userwalk.c: `vaddr_write`, `status_read`, and the module's load and unload.
-- A status text is named by what it says. `kstrtoul`, `find_vma` and the copy from user space are
-- parameters.
pub mod Outcome
use linux_kernel_prog.Prelude.{
  ℕ, ◌≡◌, ◌≤◌, ◌<◌, refl, ◌⊎◌, inl, inr, Bool, true, false, Option, none, some, List, arith, leb,
  ltb, if◌then◌else◌, Bool-cases, Option-cases,
}
use linux_kernel_prog.Kernel.{Result, ok, err, Errno, Result-cases}
use linux_kernel_prog.Vm.Mmu.{Mmu, Machine}
use linux_kernel_prog.Vm.Userwalk.{
  max_addr_len, Vma, validate_user_address, walk_userspace_page_table,
}
use linux_kernel_prog.Vm.Userwalk.Translation.{Maps}
use linux_kernel_prog.Vm.Userwalk.Walk.{after, walk-cases}

-- What `status_buffer` holds.
pub data Status : Type 0 where
  blank : Status
  ready : Status
  bad_format : Status
  no_context : Status
  validation_failed : Errno → Status
  walk_failed : Errno → Status
  success : Status

-- A task, by its `mm`.
pub record Task : Type 0 where
  pub mm : Option ℕ

pub record Userwalk : Type 0 where
  pub machine : Machine
  pub status : Status
  pub target_task : Option Task

module _ (mmu : Mmu) (find_vma : ℕ → ℕ → Option Vma) (kstrtoul : List ℕ → Result ℕ) where
  -- What follows the walk: the walk's own error goes into the status, and the write still succeeds.
  unfoldable pub report_walk : (count : ℕ) → Result ℕ × Machine → Userwalk → Result ℕ × Userwalk
  report_walk count (ok _, m) w = (ok count, record w { machine = m; status = success })
  report_walk count (err e, m) w = (ok count, record w { machine = m; status = walk_failed e })

  unfoldable pub walk_if_valid :
      (mm vaddr count : ℕ) → Result ℕ × Machine → Userwalk → Result ℕ × Userwalk
  unfolding report_walk walk_userspace_page_table
  walk_if_valid mm vaddr count (err e, m) w =
      (err e, record w { machine = m; status = validation_failed e })
  walk_if_valid mm vaddr count (ok _, m) w =
      report_walk count (walk_userspace_page_table mmu (some mm) vaddr m) w

  unfoldable pub serve_mm : Option ℕ → (vaddr count : ℕ) → Userwalk → Result ℕ × Userwalk
  unfolding walk_if_valid validate_user_address
  serve_mm none vaddr count w = (err Errno.esrch, record w { status = no_context })
  serve_mm (some mm) vaddr count w =
      walk_if_valid mm vaddr count (validate_user_address find_vma (some mm) vaddr w.machine) w

  -- `target_task = current`, the task that writes.
  unfoldable pub serve_task :
      (current : Option Task) (vaddr count : ℕ) → Userwalk → Result ℕ × Userwalk
  unfolding serve_mm
  serve_task none vaddr count w =
      (err Errno.esrch, record w { status = no_context; target_task = none })
  serve_task (some t) vaddr count w = serve_mm t.mm vaddr count (record w { target_task = some t })

  unfoldable pub vaddr_write :
      (current : Option Task) (count : ℕ) (copied : Option (List ℕ))
      → Userwalk
      → Result ℕ × Userwalk
  unfolding serve_task
  vaddr_write current count copied w =
      if leb max_addr_len count then (err Errno.einval, w) else elim copied [
        | none ↦ (err Errno.efault, w)
        | some addr_str ↦ elim (kstrtoul addr_str) [
          | err e ↦ (err e, record w { status = bad_format })
          | ok vaddr ↦ serve_task current vaddr count w
        ]
      ]

-- `status_read` hands out the status text from the file position on, through
-- `simple_read_from_buffer`.
unfoldable pub status_read : (read : Status → Result ℕ) → Userwalk → Result ℕ
status_read read w = read w.status

-- The nodes under debugfs: the directory, the `vaddr` file and the `status` file.
pub record Nodes : Type 0 where
  pub dir : Bool
  pub vaddr_file : Bool
  pub status_file : Bool

abbrev pub no_nodes : Nodes
no_nodes = record { dir = false; vaddr_file = false; status_file = false }

-- Each argument is the error of one `debugfs_create_` call, if it fails.
unfoldable pub userwalk_init :
    (dir vaddr status : Option Errno) → Userwalk → Result ℕ × Nodes × Userwalk
userwalk_init (some e) vaddr status w = (err e, no_nodes, w)
userwalk_init none (some e) status w = (err e, no_nodes, w)
userwalk_init none none (some e) w = (err e, no_nodes, w)
userwalk_init none none none w = (
  ok 0,
  record { dir = true; vaddr_file = true; status_file = true },
  record w { status = ready },
)

unfoldable pub userwalk_exit : Nodes → Nodes
userwalk_exit n = no_nodes
