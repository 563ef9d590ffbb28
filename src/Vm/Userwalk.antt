-- ===== src/Vm/Userwalk.antt =====
-- vm/p3_usertrans/userwalk.c. The walk is cut into one function for each level of the page table,
-- in the order of the code. `mm` is the address of the `mm_struct`, `none` where it is NULL.
pub mod Translation
pub mod Walk
pub mod Request
pub mod Bounds
pub mod Physical
mod Examples
use linux_kernel_prog.Prelude.{
  ℕ, ◌+◌, ◌-◌, ◌/◌, ◌%◌, suc, Bool, not, ◌||◌, Option, none, some, List, leb, ltb, if◌then◌else◌,
  length, ◌==◌,
}
use linux_kernel_prog.Kernel.{Result, ok, err, Errno}
use linux_kernel_prog.Vm.Mmu.{Mmu, Machine, align_down, physical, print}
use linux_kernel_prog.Vm.Capitalize.{modify_page}

-- `MAX_ADDR_LEN`
abbrev pub max_addr_len : ℕ
max_addr_len = 32

-- `strlen(TEST_STRING)` for "userspace"
abbrev pub test_length : ℕ
test_length = 9

pub record Vma : Type 0 where
  pub vm_start : ℕ
  pub vm_end : ℕ

-- `mmap_read_lock` and `mmap_read_unlock`
abbrev pub mmap_read_lock : Machine → Machine
mmap_read_lock s = record s { readers = suc s.readers }

abbrev pub mmap_read_unlock : Machine → Machine
mmap_read_unlock s = record s { readers = s.readers - 1 }

-- An early return with `-EFAULT`, and the last one with 0.
abbrev pub fault : Machine → Result ℕ × Machine
fault s = (err Errno.efault, mmap_read_unlock s)

abbrev pub done : Machine → Result ℕ × Machine
done s = (ok 0, mmap_read_unlock s)

unfoldable pub validate_user_address :
    (find_vma : ℕ → ℕ → Option Vma) → Option ℕ → ℕ → Machine → Result ℕ × Machine
validate_user_address find_vma none vaddr s = (err Errno.einval, s)
validate_user_address find_vma (some mm) vaddr s = elim (find_vma mm vaddr) [
  | none ↦ fault (mmap_read_lock s)
  | some vma ↦ if ltb vaddr vma.vm_start then fault (mmap_read_lock s) else done (mmap_read_lock s)
]

module _ (mmu : Mmu) where
  open mmu use {
    page_size, pmd_size, pud_size, phys_limit, pgd_offset, p4d_offset, pud_offset, pmd_offset,
    pte_offset, pgd_none, pgd_bad, p4d_none, p4d_bad, pud_none, pud_bad, pud_leaf, pud_val,
    pmd_none, pmd_bad, pmd_leaf, pmd_val, pmd_page, pte_none, pte_present, pte_val, pte_page,
    page_address,
  }

  -- Where `mapped_addr` points in a 2 MB page and in a 4 KB page.
  unfoldable pub huge_address : (page vaddr : ℕ) → ℕ
  huge_address page vaddr = page_address (page + vaddr % pmd_size / page_size) + vaddr % page_size

  unfoldable pub small_address : (page vaddr : ℕ) → ℕ
  small_address page vaddr = page_address page + vaddr % page_size

  unfoldable pub walk_pte : (pte vaddr : ℕ) → Machine → Result ℕ × Machine
  unfolding modify_page physical small_address
  walk_pte pte vaddr s =
      if pte_none pte
      then fault s
      else if not (pte_present pte)
      then fault s
      else done (
          modify_page test_length (pte_page pte) (λ page. small_address page vaddr)
            (print (physical page_size (pte_val pte % phys_limit) vaddr) s))

  unfoldable pub walk_pmd : (pmd vaddr : ℕ) → Machine → Result ℕ × Machine
  unfolding modify_page physical huge_address walk_pte
  walk_pmd pmd vaddr s =
      if pmd_none pmd
      then fault s
      else if pmd_leaf pmd
      then done (
          modify_page test_length (pmd_page pmd) (λ page. huge_address page vaddr)
            (print (physical pmd_size (pmd_val pmd) vaddr) s))
      else if pmd_bad pmd
      then fault s
      else walk_pte (pte_offset pmd vaddr) vaddr s

  unfoldable pub walk_pud : (pud vaddr : ℕ) → Machine → Result ℕ × Machine
  unfolding physical walk_pmd
  walk_pud pud vaddr s =
      if pud_none pud
      then fault s
      else if pud_leaf pud
      then done (print (physical pud_size (pud_val pud) vaddr) s)
      else if pud_bad pud
      then fault s
      else walk_pmd (pmd_offset pud vaddr) vaddr s

  unfoldable pub walk_p4d : (p4d vaddr : ℕ) → Machine → Result ℕ × Machine
  unfolding walk_pud
  walk_p4d p4d vaddr s =
      if p4d_none p4d || p4d_bad p4d then fault s else walk_pud (pud_offset p4d vaddr) vaddr s

  unfoldable pub walk_userspace_page_table : Option ℕ → ℕ → Machine → Result ℕ × Machine
  unfolding walk_p4d
  walk_userspace_page_table none vaddr s = (err Errno.einval, s)
  walk_userspace_page_table (some mm) vaddr s =
      if pgd_none (pgd_offset mm vaddr) || pgd_bad (pgd_offset mm vaddr)
      then fault (mmap_read_lock s)
      else walk_p4d (p4d_offset (pgd_offset mm vaddr) vaddr) vaddr (mmap_read_lock s)
