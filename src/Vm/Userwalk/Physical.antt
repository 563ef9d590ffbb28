-- ===== src/Vm/Userwalk/Physical.antt =====
-- The walk of userwalk.c against the physical address.
use native.Mathlib.Nat.{div-add-mod'}
use linux_kernel_prog.Prelude.{
  ℕ, ◌+◌, ◌*◌, ◌/◌, ◌%◌, ◌≡◌, refl, ap, ◌∙◌, ◌⊎◌, inl, inr, Option, none, some, arith,
}
use linux_kernel_prog.Kernel.{ok, err, Errno}
use linux_kernel_prog.Vm.Mmu.{Mmu, Machine, physical}
use linux_kernel_prog.Vm.Userwalk.{walk_userspace_page_table}
use linux_kernel_prog.Vm.Userwalk.Translation.{Maps, Translates}
use linux_kernel_prog.Vm.Userwalk.Walk.{after, walk-cases}
use linux_kernel_prog.Vm.Userwalk.Bounds.{mod-mod_multiple}

-- The physical address mask is a whole number of huge pages, of either size.
pub record IsMasked (mmu : Mmu) : Type 0 where
  pub pmds : ℕ
  pub puds : ℕ
  pub by_pmd : mmu.phys_limit ≡ pmds * mmu.pmd_size
  pub by_pud : mmu.phys_limit ≡ puds * mmu.pud_size

-- The code's number for a huge page is the one of the masked entry and what is above the mask.
physical-split :
    (k limit size e v : ℕ)
    → limit ≡ k * size
    → physical size e v ≡ physical size (e % limit) v + e / limit * limit
unfolding physical
physical-split k limit size e v h =
    let same : e % limit % size ≡ e % size = rw h (mod-mod_multiple k size e) in
    omega (arith, div-add-mod' e size, div-add-mod' (e % limit) size, div-add-mod' e limit, same)

module _ (mmu : Mmu) (masked : IsMasked mmu) (mm v : ℕ) where
  Maps-Translates :
      {p : ℕ} {a : Option ℕ}
      → Maps mmu mm v p a
      → (paddr flags : ℕ) × Translates mmu mm v paddr flags a × (p ≡ paddr + flags * mmu.phys_limit)
  Maps-Translates (Maps.gigabyte h leaf) = (
    _,
    _,
    Translates.gigabyte h leaf,
    physical-split masked.puds mmu.phys_limit mmu.pud_size _ v masked.by_pud,
  )
  Maps-Translates (Maps.huge h leaf) = (
    _,
    _,
    Translates.huge h leaf,
    physical-split masked.pmds mmu.phys_limit mmu.pmd_size _ v masked.by_pmd,
  )
  Maps-Translates (Maps.small h) = (_, _, Translates.small h, omega arith)

  Translates-Maps :
      {paddr flags : ℕ} {a : Option ℕ}
      → Translates mmu mm v paddr flags a
      → (p : ℕ) × Maps mmu mm v p a
  Translates-Maps (Translates.gigabyte h leaf) = (_, Maps.gigabyte h leaf)
  Translates-Maps (Translates.huge h leaf) = (_, Maps.huge h leaf)
  Translates-Maps (Translates.small h) = (_, Maps.small h)

-- Where the mask is a whole number of huge pages, every walk ends in one of three ways: there is no
-- address space, and it returns -EINVAL; or the address is mapped, and the walk returns 0, changes
-- nothing but the bytes that it opens, and prints the physical address, which in a huge page it does
-- not clear of the entry's bits above the mask; or the address is not mapped, and the walk returns
-- -EFAULT. In the first and the last it leaves the machine as it was, the lock included.
pub walk-decides :
    (mmu : Mmu) (masked : IsMasked mmu) (task_mm : Option ℕ) (v : ℕ) (s : Machine)
    → ((task_mm ≡ none) × (walk_userspace_page_table mmu task_mm v s ≡ (err Errno.einval, s)))
      ⊎ ((mm : ℕ) × (task_mm ≡ some mm)
          × (((paddr flags : ℕ) × (a : Option ℕ) × Translates mmu mm v paddr flags a
                × (walk_userspace_page_table mmu task_mm v s
                    ≡ (ok 0, after (paddr + flags * mmu.phys_limit) a s)))
              ⊎ (((paddr flags : ℕ) (a : Option ℕ) → ¬ Translates mmu mm v paddr flags a)
                  × (walk_userspace_page_table mmu task_mm v s ≡ (err Errno.efault, s)))))
unfolding walk_userspace_page_table
walk-decides mmu masked none v s = inl (refl, refl)
walk-decides mmu masked (some mm) v s = inr (
  mm,
  refl,
  elim (walk-cases mmu mm v s) [
    | inl (p, a, m, e) ↦
        let (paddr, flags, t, same) = Maps-Translates mmu masked mm v m in
        inl (paddr, flags, a, t, e ∙ ap (λ q. (ok 0, after q a s)) same)
    | inr (unmapped, e) ↦
        inr
          ((λ paddr flags a t. let (p, m) = Translates-Maps mmu masked mm v t in unmapped p a m), e)
  ],
)
