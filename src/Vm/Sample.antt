-- ===== src/Vm/Sample.antt =====
-- A page table whose every address lies in one 4 KB page, frame 5, for runs of the walks.
use linux_kernel_prog.Prelude.{ℕ, ◌+◌, ◌*◌, ◌^◌, refl, true, false, none, some, [], arith}
use linux_kernel_prog.Vm.Mmu.{Mmu, Machine}
use linux_kernel_prog.Vm.Userwalk.Translation.{HasPmd, HasPte}
use linux_kernel_prog.Vm.Userwalk.Bounds.{IsRegular}

abbrev pub one_page : Mmu
one_page = record {
  page_size = 2 ^ 12;
  pmd_size = 2 ^ 21;
  pud_size = 2 ^ 30;
  phys_limit = 2 ^ 52;
  pgd_offset = λ mm v. 1;
  p4d_offset = λ e v. 1;
  pud_offset = λ e v. 1;
  pmd_offset = λ e v. 1;
  pte_offset = λ e v. 1;
  pgd_none = λ e. false;
  pgd_bad = λ e. false;
  p4d_none = λ e. false;
  p4d_bad = λ e. false;
  pud_none = λ e. false;
  pud_bad = λ e. false;
  pud_leaf = λ e. false;
  pud_val = λ e. 0;
  pmd_none = λ e. false;
  pmd_bad = λ e. false;
  pmd_leaf = λ e. false;
  pmd_val = λ e. 0;
  pmd_page = λ e. none;
  pte_none = λ e. false;
  pte_present = λ e. true;
  pte_val = λ e. 5 * 2 ^ 12 + 1;
  pte_page = λ e. some 5;
  page_address = λ page. page * 2 ^ 12;
}

pub one_page-IsRegular : IsRegular one_page
one_page-IsRegular = record {
  pmd_pages = 512;
  pud_pmds = 512;
  pmd_size = refl;
  pud_size = refl;
  linear = λ page n. omega arith;
}

-- Memory full of the letter "u".
abbrev pub machine : Machine
machine = record { mem = λ a. b'u'; readers = 0; printed = [] }

pub one_page-HasPmd : (v : ℕ) → HasPmd one_page 7 v
one_page-HasPmd v = record {
  upper = record {
    pgd_used = refl;
    pgd_good = refl;
    p4d_used = refl;
    p4d_good = refl;
    pud_used = refl;
  };
  pud_table = refl;
  pud_good = refl;
  pmd_used = refl;
}

pub one_page-HasPte : (v : ℕ) → HasPte one_page 7 v
one_page-HasPte v = record {
  upper = one_page-HasPmd v;
  pmd_table = refl;
  pmd_good = refl;
  pte_used = refl;
  present = refl;
}
