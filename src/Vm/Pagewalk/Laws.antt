-- ===== src/Vm/Pagewalk/Laws.antt =====
-- The walks of vm/p1_trans against the translations of Vm/Userwalk/Translation.
use native.Mathlib.Nat.{div-add-mod', mul-add-mod_self_right, mod-lt, zero-mod}
use linux_kernel_prog.Prelude.{
  ℕ, zero, suc, ◌+◌, ◌*◌, ◌/◌, ◌%◌, ◌≤◌, ◌<◌, ◌≡◌, refl, true, none, some, ◌∷◌, arith, ap, ◌∙◌,
  get_or,
}
use linux_kernel_prog.Kernel.{ok}
use linux_kernel_prog.Vm.Mmu.{Mmu, Machine, physical, align_down}
use linux_kernel_prog.Vm.Capitalize.{upper, capitalize}
use linux_kernel_prog.Vm.Userwalk.{small_address, walk_userspace_page_table}
use linux_kernel_prog.Vm.Userwalk.Translation.{
  pud_of, pmd_of, pte_of, HasPud, HasPmd, HasPte, gigabyte,
}
use linux_kernel_prog.Vm.Userwalk.Walk.{after, walk-Maps}
use linux_kernel_prog.Vm.Pagewalk.Kernelmem.{strcpy, test_allocation, capitalize-strcpy}
use linux_kernel_prog.Vm.Pagewalk.X86.{x86_test_string, x86_test_length, x86_64_walk_page_table}
use linux_kernel_prog.Vm.Pagewalk.Arm64.{
  arm64_test_string, arm64_test_length, arm64_walk_page_table,
}

multiple-le : (q d v : ℕ) → q * d + v % d ≡ v → 0 < d → d ≤ v → d ≤ q * d
multiple-le zero d v e pos h = absurd (omega (arith, mod-lt v pos))
multiple-le (suc n) d v e pos h = omega arith

align_down-le : (d v : ℕ) → 0 < d → d ≤ v → d ≤ align_down d v
align_down-le d v pos h = multiple-le (v / d) d v (div-add-mod' v d) pos h

-- A multiple of a multiple is divided and multiplied back.
multiple_back : (k p q : ℕ) → q * (k * p) / p * p ≡ q * (k * p)
multiple_back k p q =
    let whole : (q * (k * p)) % p ≡ 0 =
      ap (λ t. t % p) (omega arith) ∙ mul-add-mod_self_right (q * k) p 0 ∙ zero-mod p in
    omega (arith, div-add-mod' (q * (k * p)) p, whole)

module _ (mmu : Mmu) (mm v : ℕ) where
  -- Where a 1 GB entry counts as bad, as on x86, the x86 walk never reaches its 1 GB branch: at an
  -- address in a 1 GB page it prints nothing, while the walk for user space translates it.
  pub x86-no_gigabyte :
      (s : Machine)
      → ((e : ℕ) → mmu.pud_leaf e ≡ true → mmu.pud_bad e ≡ true)
      → HasPud mmu mm v
      → mmu.pud_leaf (pud_of mmu mm v) ≡ true
      → (x86_64_walk_page_table mmu (some mm) v s ≡ s)
        × (walk_userspace_page_table mmu (some mm) v s
            ≡ (ok 0, after (physical mmu.pud_size (mmu.pud_val (pud_of mmu mm v)) v) none s))
  unfolding x86_64_walk_page_table
  x86-no_gigabyte s bad h leaf =
      (ground (arith, bad (pud_of mmu mm v)), walk-Maps mmu mm v s (gigabyte h leaf))

  -- Where a section entry counts as bad, as on arm64, the arm64 walk never reaches its 2 MB branch:
  -- at an address in such a section it prints nothing and changes nothing.
  pub arm64-no_section :
      (s : Machine)
      → ((e : ℕ) → mmu.pmd_leaf e ≡ true → mmu.pmd_bad e ≡ true)
      → HasPmd mmu mm v
      → mmu.pmd_leaf (pmd_of mmu mm v) ≡ true
      → arm64_walk_page_table mmu (some mm) v s ≡ s
  unfolding arm64_walk_page_table
  arm64-no_section s bad h leaf = ground (arith, bad (pmd_of mmu mm v))

  x86_walk-small :
      (s : Machine) (page : ℕ)
      → HasPte mmu mm v
      → mmu.pte_page (pte_of mmu mm v) ≡ some page
      → small_address mmu page v ≡ v
      → x86_64_walk_page_table mmu (some mm) v s ≡ record s {
        mem = capitalize x86_test_length v s.mem;
        printed =
            physical mmu.page_size (mmu.pte_val (pte_of mmu mm v) % mmu.phys_limit) v ∷ s.printed;
      }
  unfolding x86_64_walk_page_table small_address
  x86_walk-small s page h e same = ground arith

  -- The x86 test of an allocation in a mapped 4 KB page prints the physical address and leaves the
  -- test string there in capitals, where the page's kernel address is the address itself.
  pub x86_test-capitals :
      (s : Machine) (page i : ℕ)
      → HasPte mmu mm v
      → mmu.pte_page (pte_of mmu mm v) ≡ some page
      → small_address mmu page v ≡ v
      → i < x86_test_length
      → let t = test_allocation (x86_64_walk_page_table mmu (some mm)) x86_test_string (some v) s in
        (t.mem (v + i) ≡ upper (get_or x86_test_string i 0))
        × (t.printed
            ≡ physical mmu.page_size (mmu.pte_val (pte_of mmu mm v) % mmu.phys_limit) v ∷ s.printed)
  unfolding test_allocation
  x86_test-capitals s page i h e same lt =
      let walked =
        x86_walk-small (record s { mem = strcpy x86_test_string v s.mem }) page h e same in
      rw walked (
        capitalize-strcpy x86_test_length x86_test_string v i s.mem (omega arith) (omega arith) lt,
        refl,
      )

  arm64_walk-small :
      (s : Machine) (page : ℕ)
      → HasPte mmu mm v
      → mmu.pte_page (pte_of mmu mm v) ≡ some page
      → small_address mmu page v ≡ v
      → arm64_walk_page_table mmu (some mm) v s ≡ record s {
        mem = capitalize arm64_test_length v s.mem;
        printed =
            physical mmu.page_size (mmu.pte_val (pte_of mmu mm v) % mmu.phys_limit) v ∷ s.printed;
      }
  unfolding arm64_walk_page_table small_address
  arm64_walk-small s page h e same = ground arith

  -- The arm64 test of an allocation in a mapped 4 KB page prints the physical address and leaves the
  -- test string there in capitals, where the page's kernel address is the address itself.
  pub arm64_test-capitals :
      (s : Machine) (page i : ℕ)
      → HasPte mmu mm v
      → mmu.pte_page (pte_of mmu mm v) ≡ some page
      → small_address mmu page v ≡ v
      → i < arm64_test_length
      → let t =
          test_allocation (arm64_walk_page_table mmu (some mm)) arm64_test_string (some v) s in
        (t.mem (v + i) ≡ upper (get_or arm64_test_string i 0))
        × (t.printed
            ≡ physical mmu.page_size (mmu.pte_val (pte_of mmu mm v) % mmu.phys_limit) v ∷ s.printed)
  unfolding test_allocation
  arm64_test-capitals s page i h e same lt =
      let walked =
        arm64_walk-small (record s { mem = strcpy arm64_test_string v s.mem }) page h e same in
      rw walked (
        capitalize-strcpy arm64_test_length arm64_test_string v i s.mem (omega arith) (omega arith)
            lt,
        refl,
      )
