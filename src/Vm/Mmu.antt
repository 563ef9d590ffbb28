-- ===== src/Vm/Mmu.antt =====
-- What the page table walks of vm/p1_trans and vm/p3_usertrans take from the kernel, as parameters,
-- and the machine that they read and change.
use linux_kernel_prog.Prelude.{ℕ, ◌+◌, ◌*◌, ◌/◌, ◌%◌, Bool, Option, List, ◌∷◌}

-- The page table helpers of the architecture. An entry is named by its address, as `pgd_t *` is.
pub record Mmu : Type 0 where
  pub page_size : ℕ  -- PAGE_SIZE
  pub pmd_size : ℕ  -- PMD_SIZE
  pub pud_size : ℕ  -- PUD_SIZE
  pub phys_limit : ℕ  -- one more than the physical address mask
  pub pgd_offset : ℕ → ℕ → ℕ
  pub p4d_offset : ℕ → ℕ → ℕ
  pub pud_offset : ℕ → ℕ → ℕ
  pub pmd_offset : ℕ → ℕ → ℕ
  pub pte_offset : ℕ → ℕ → ℕ  -- pte_offset_kernel
  pub pgd_none : ℕ → Bool
  pub pgd_bad : ℕ → Bool
  pub p4d_none : ℕ → Bool
  pub p4d_bad : ℕ → Bool
  pub pud_none : ℕ → Bool
  pub pud_bad : ℕ → Bool
  pub pud_leaf : ℕ → Bool  -- pud_sect on arm64
  pub pud_val : ℕ → ℕ
  pub pmd_none : ℕ → Bool
  pub pmd_bad : ℕ → Bool
  pub pmd_leaf : ℕ → Bool  -- pmd_sect on arm64
  pub pmd_val : ℕ → ℕ
  pub pmd_page : ℕ → Option ℕ
  pub pte_none : ℕ → Bool
  pub pte_present : ℕ → Bool
  pub pte_val : ℕ → ℕ
  pub pte_page : ℕ → Option ℕ
  pub page_address : ℕ → ℕ  -- a page is named by its frame number, so `page + n` is a sum

-- Memory by kernel address, the readers that hold `mmap_lock`, and the physical addresses that the
-- walks have printed, the last one first.
pub record Machine : Type 0 where
  pub mem : ℕ → ℕ
  pub readers : ℕ
  pub printed : List ℕ

-- `x & MASK` and `x & ~MASK` for a mask `~(size - 1)`.
abbrev pub align_down : ℕ → ℕ → ℕ
align_down size x = x / size * size

-- `(entry & MASK) | (vaddr & ~MASK)`: the two parts share no bit, so the sum is the disjunction.
unfoldable pub physical : (size entry vaddr : ℕ) → ℕ
physical size entry vaddr = align_down size entry + vaddr % size

abbrev pub print : ℕ → Machine → Machine
print paddr s = record s { printed = paddr ∷ s.printed }
