-- ===== src/Vm/Pagewalk/Examples.antt =====
-- The theorems of Vm/Pagewalk on tables with one 4 KB page, and with large pages.
use linux_kernel_prog.Prelude.{
  ℕ, ◌+◌, ◌*◌, ◌%◌, ◌^◌, ◌≡◌, refl, true, none, some, ◌∷◌, arith, get_or,
}
use linux_kernel_prog.Kernel.{ok}
use linux_kernel_prog.Vm.Mmu.{Mmu, physical}
use linux_kernel_prog.Vm.Capitalize.{upper}
use linux_kernel_prog.Vm.Sample.{one_page, one_page-HasPte, machine}
use linux_kernel_prog.Vm.Userwalk.{small_address, walk_userspace_page_table}
use linux_kernel_prog.Vm.Userwalk.Translation.{HasPud, HasPmd}
use linux_kernel_prog.Vm.Userwalk.Walk.{after}
use linux_kernel_prog.Vm.Pagewalk.Kernelmem.{test_allocation}
use linux_kernel_prog.Vm.Pagewalk.X86.{x86_test_string, x86_64_walk_page_table}
use linux_kernel_prog.Vm.Pagewalk.Arm64.{arm64_test_string, arm64_walk_page_table}
use linux_kernel_prog.Vm.Pagewalk.Laws.{
  x86-no_gigabyte, arm64-no_section, x86_test-capitals, arm64_test-capitals,
}

-- A leaf counts as bad.
abbrev gigabyte_page : Mmu
gigabyte_page = record one_page { pud_leaf = λ e. true; pud_bad = λ e. true }

abbrev section_page : Mmu
section_page = record one_page { pmd_leaf = λ e. true; pmd_bad = λ e. true }

gigabyte_page-HasPud : (v : ℕ) → HasPud gigabyte_page 7 v
gigabyte_page-HasPud v = record {
  pgd_used = refl;
  pgd_good = refl;
  p4d_used = refl;
  p4d_good = refl;
  pud_used = refl;
}

section_page-HasPmd : (v : ℕ) → HasPmd section_page 7 v
section_page-HasPmd v = record {
  upper = record {
    pgd_used = refl;
    pgd_good = refl;
    p4d_used = refl;
    p4d_good = refl;
    pud_used = refl;
  };
  pud_table = refl;
  pud_good = refl;
  pmd_used = refl;
}

x86-no_gigabyte_example :
    (x86_64_walk_page_table gigabyte_page (some 7) 0x1234 machine ≡ machine)
    × (walk_userspace_page_table gigabyte_page (some 7) 0x1234 machine
        ≡ (ok 0, after (physical (2 ^ 30) 0 0x1234) none machine))
x86-no_gigabyte_example =
    x86-no_gigabyte gigabyte_page 7 0x1234 machine (λ e h. refl) (gigabyte_page-HasPud 0x1234) refl

arm64-no_section_example : arm64_walk_page_table section_page (some 7) 0x1234 machine ≡ machine
arm64-no_section_example =
    arm64-no_section section_page 7 0x1234 machine (λ e h. refl) (section_page-HasPmd 0x1234) refl

-- An address in frame 5, where the kernel's linear map puts that frame.
abbrev linear : ℕ
linear = 5 * 2 ^ 12 + 0x10

x86_test-capitals_example :
    let t =
      test_allocation
        (x86_64_walk_page_table one_page (some 7))
        x86_test_string
        (some linear)
        machine in
    (t.mem (linear + 3) ≡ upper (get_or x86_test_string 3 0))
    × (t.printed ≡ physical (2 ^ 12) ((5 * 2 ^ 12 + 1) % 2 ^ 52) linear ∷ machine.printed)
unfolding small_address
x86_test-capitals_example =
    x86_test-capitals one_page 7 linear machine 5 3 (one_page-HasPte linear) refl refl (omega arith)

arm64_test-capitals_example :
    let t =
      test_allocation
        (arm64_walk_page_table one_page (some 7))
        arm64_test_string
        (some linear)
        machine in
    (t.mem (linear + 29) ≡ upper (get_or arm64_test_string 29 0))
    × (t.printed ≡ physical (2 ^ 12) ((5 * 2 ^ 12 + 1) % 2 ^ 52) linear ∷ machine.printed)
unfolding small_address
arm64_test-capitals_example =
    arm64_test-capitals one_page 7 linear machine 5 29 (one_page-HasPte linear) refl refl
      (omega arith)
