-- ===== src/Vm/Userwalk/Translation.antt =====
-- What a translation is, apart from the code that looks for it: the entries that lead to a page, the
-- physical address with the bits above it in a huge entry, and the bytes that the walk may change.
use linux_kernel_prog.Prelude.{ℕ, ◌%◌, ◌/◌, ◌≡◌, true, false, Option, none, some}
use linux_kernel_prog.Vm.Mmu.{Mmu, physical}
use linux_kernel_prog.Vm.Userwalk.{huge_address, small_address}

abbrev pub opened : Option ℕ → (ℕ → ℕ) → Option ℕ
opened none address = none
opened (some page) address = some (address page)

module _ (mmu : Mmu) where
  open mmu use {
    page_size, pmd_size, pud_size, phys_limit, pgd_offset, p4d_offset, pud_offset, pmd_offset,
    pte_offset, pgd_none, pgd_bad, p4d_none, p4d_bad, pud_none, pud_bad, pud_leaf, pud_val,
    pmd_none, pmd_bad, pmd_leaf, pmd_val, pmd_page, pte_none, pte_present, pte_val, pte_page,
  }

  -- The entry of each level for an address.
  abbrev pub pgd_of : ℕ → ℕ → ℕ
  pgd_of mm v = pgd_offset mm v

  abbrev pub p4d_of : ℕ → ℕ → ℕ
  p4d_of mm v = p4d_offset (pgd_of mm v) v

  abbrev pub pud_of : ℕ → ℕ → ℕ
  pud_of mm v = pud_offset (p4d_of mm v) v

  abbrev pub pmd_of : ℕ → ℕ → ℕ
  pmd_of mm v = pmd_offset (pud_of mm v) v

  abbrev pub pte_of : ℕ → ℕ → ℕ
  pte_of mm v = pte_offset (pmd_of mm v) v

  -- The upper levels lead to a page upper directory entry that is in use.
  pub record HasPud (mm v : ℕ) : Type 0 where
    pub pgd_used : pgd_none (pgd_of mm v) ≡ false
    pub pgd_good : pgd_bad (pgd_of mm v) ≡ false
    pub p4d_used : p4d_none (p4d_of mm v) ≡ false
    pub p4d_good : p4d_bad (p4d_of mm v) ≡ false
    pub pud_used : pud_none (pud_of mm v) ≡ false

  pub record HasPmd (mm v : ℕ) : Type 0 where
    pub upper : HasPud mm v
    pub pud_table : pud_leaf (pud_of mm v) ≡ false
    pub pud_good : pud_bad (pud_of mm v) ≡ false
    pub pmd_used : pmd_none (pmd_of mm v) ≡ false

  pub record HasPte (mm v : ℕ) : Type 0 where
    pub upper : HasPmd mm v
    pub pmd_table : pmd_leaf (pmd_of mm v) ≡ false
    pub pmd_good : pmd_bad (pmd_of mm v) ≡ false
    pub pte_used : pte_none (pte_of mm v) ≡ false
    pub present : pte_present (pte_of mm v) ≡ true

  -- `v` is mapped, and the walk prints this number, which it forms from the entry; the last index is
  -- the kernel address of the byte, where the walk opens the page.
  pub data Maps (mm v : ℕ) : ℕ → Option ℕ → Type 0 where
    gigabyte :
        HasPud mm v
        → pud_leaf (pud_of mm v) ≡ true
        → Maps mm v (physical pud_size (pud_val (pud_of mm v)) v) none
    huge :
        HasPmd mm v
        → pmd_leaf (pmd_of mm v) ≡ true
        → Maps mm v
            (physical pmd_size (pmd_val (pmd_of mm v)) v)
            (opened (pmd_page (pmd_of mm v)) (λ page. huge_address mmu page v))
    small :
        HasPte mm v
        → Maps mm v
            (physical page_size (pte_val (pte_of mm v) % phys_limit) v)
            (opened (pte_page (pte_of mm v)) (λ page. small_address mmu page v))

  -- `v` is mapped to a physical address, which has no bit of the entry outside of the physical address
  -- mask; what is left of the entry above the mask, such as the bit against execution, where the walk
  -- does not mask it off; and the kernel address of the byte, where the walk opens the page.
  pub data Translates (mm v : ℕ) : (paddr flags : ℕ) → Option ℕ → Type 0 where
    gigabyte :
        HasPud mm v
        → pud_leaf (pud_of mm v) ≡ true
        → Translates mm v
            (physical pud_size (pud_val (pud_of mm v) % phys_limit) v)
            (pud_val (pud_of mm v) / phys_limit)
            none
    huge :
        HasPmd mm v
        → pmd_leaf (pmd_of mm v) ≡ true
        → Translates mm v
            (physical pmd_size (pmd_val (pmd_of mm v) % phys_limit) v)
            (pmd_val (pmd_of mm v) / phys_limit)
            (opened (pmd_page (pmd_of mm v)) (λ page. huge_address mmu page v))
    small :
        HasPte mm v
        → Translates mm v
            (physical page_size (pte_val (pte_of mm v) % phys_limit) v)
            0
            (opened (pte_page (pte_of mm v)) (λ page. small_address mmu page v))
