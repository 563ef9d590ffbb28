-- ===== src/Vm/Pagewalk/X86.antt =====
-- vm/p1_trans/x86_64_pagewalk.c.
use linux_kernel_prog.Prelude.{
  ℕ, ◌+◌, ◌/◌, ◌%◌, ◌||◌, Option, none, some, List, ◌++◌, if◌then◌else◌, codes, length,
}
use linux_kernel_prog.Vm.Mmu.{Mmu, Machine, physical, print}
use linux_kernel_prog.Vm.Capitalize.{modify_page}
use linux_kernel_prog.Vm.Pagewalk.Kernelmem.{Pointers, test_allocation, freed}

-- `TEST_STRING`
abbrev pub x86_test_string : List ℕ
x86_test_string = codes "techveda"

abbrev pub x86_test_length : ℕ
x86_test_length = length x86_test_string

module _ (mmu : Mmu) where
  open mmu use {
    page_size, pmd_size, pud_size, phys_limit, pgd_offset, p4d_offset, pud_offset, pmd_offset,
    pte_offset, pgd_none, pgd_bad, p4d_none, p4d_bad, pud_none, pud_bad, pud_leaf, pud_val,
    pmd_none, pmd_bad, pmd_leaf, pmd_val, pmd_page, pte_none, pte_val, pte_page, page_address,
  }

  unfoldable pub x86_huge_address : (page vaddr : ℕ) → ℕ
  x86_huge_address page vaddr =
      page_address (page + vaddr % pmd_size / page_size) + vaddr % page_size

  unfoldable pub x86_walk_pte : (pte vaddr : ℕ) → Machine → Machine
  unfolding modify_page physical
  x86_walk_pte pte vaddr s =
      if pte_none pte
      then s
      else modify_page x86_test_length (pte_page pte)
          (λ page. page_address page + vaddr % page_size)
          (print (physical page_size (pte_val pte % phys_limit) vaddr) s)

  unfoldable pub x86_walk_pmd : (pmd vaddr : ℕ) → Machine → Machine
  unfolding modify_page physical x86_walk_pte x86_huge_address
  x86_walk_pmd pmd vaddr s =
      if pmd_none pmd
      then s
      else if pmd_leaf pmd
      then modify_page x86_test_length (pmd_page pmd) (λ page. x86_huge_address page vaddr)
          (print (physical pmd_size (pmd_val pmd) vaddr) s)
      else if pmd_bad pmd
      then s
      else x86_walk_pte (pte_offset pmd vaddr) vaddr s

  unfoldable pub x86_walk_pud : (pud vaddr : ℕ) → Machine → Machine
  unfolding physical x86_walk_pmd
  x86_walk_pud pud vaddr s =
      if pud_none pud || pud_bad pud
      then s
      else if pud_leaf pud
      then print (physical pud_size (pud_val pud) vaddr) s
      else x86_walk_pmd (pmd_offset pud vaddr) vaddr s

  unfoldable pub x86_walk_p4d : (p4d vaddr : ℕ) → Machine → Machine
  unfolding x86_walk_pud
  x86_walk_p4d p4d vaddr s =
      if p4d_none p4d || p4d_bad p4d then s else x86_walk_pud (pud_offset p4d vaddr) vaddr s

  -- `mm` is `current->mm`, NULL for a kernel thread.
  unfoldable pub x86_64_walk_page_table : (mm : Option ℕ) → ℕ → Machine → Machine
  unfolding x86_walk_p4d
  x86_64_walk_page_table none vaddr s = s
  x86_64_walk_page_table (some mm) vaddr s =
      if pgd_none (pgd_offset mm vaddr) || pgd_bad (pgd_offset mm vaddr)
      then s
      else x86_walk_p4d (p4d_offset (pgd_offset mm vaddr) vaddr) vaddr s

  -- What the three allocators return is an argument; the load always succeeds.
  unfoldable pub x86_pagewalk_init : (mm : Option ℕ) → Pointers → Machine → Machine × Pointers
  unfolding test_allocation x86_64_walk_page_table
  x86_pagewalk_init mm got s =
      let walk = x86_64_walk_page_table mm in
      let s1 = test_allocation walk x86_test_string got.test_page s in
      let s2 = test_allocation walk x86_test_string got.kmalloc_ptr s1 in
      (test_allocation walk x86_test_string got.vmalloc_ptr s2, got)

-- The addresses given back, in order.
unfoldable pub x86_pagewalk_exit : Pointers → List ℕ
x86_pagewalk_exit p = freed p.test_page ++ freed p.kmalloc_ptr ++ freed p.vmalloc_ptr
