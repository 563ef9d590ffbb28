-- ===== src/Vm/Userwalk/Examples.antt =====
-- The theorems on a task with one 4 KB page.
use linux_kernel_prog.Prelude.{
  ℕ, ◌+◌, ◌*◌, ◌%◌, ◌^◌, ◌≤◌, ◌<◌, ◌≡◌, ◌≢◌, refl, ◌⊎◌, Option, none, some, List, [], ◌∷◌, arith,
  leb, ltb, ◌&&◌, if◌then◌else◌,
}
use linux_kernel_prog.Kernel.{Result, ok, err, Errno}
use linux_kernel_prog.Vm.Mmu.{Machine, physical}
use linux_kernel_prog.Vm.Sample.{one_page, one_page-IsRegular, one_page-HasPte, machine}
use linux_kernel_prog.Vm.Capitalize.{capitalize, capitalize-upper, capitalize_idem, strnlen, upper}
use linux_kernel_prog.Vm.Userwalk.{
  Vma, test_length, huge_address, small_address, validate_user_address, walk_userspace_page_table,
}
use linux_kernel_prog.Vm.Userwalk.Translation.{Maps, Translates}
use linux_kernel_prog.Vm.Userwalk.Walk.{after}
use linux_kernel_prog.Vm.Userwalk.Physical.{IsMasked, walk-decides}
use linux_kernel_prog.Vm.Userwalk.Request.{Userwalk, blank, vaddr_write}
use linux_kernel_prog.Vm.Userwalk.Request.Outcome.{
  InVma, Served, Refused, validate-decides, vaddr_write-decides,
}
use linux_kernel_prog.Vm.Userwalk.Bounds.{
  Maps-offset, huge_address-offset, walk-bounds, walk-overrun,
}

mapped :
    (v : ℕ)
    → Maps one_page 7 v
        (physical (2 ^ 12) ((5 * 2 ^ 12 + 1) % 2 ^ 52) v)
        (some (small_address one_page 5 v))
mapped v = Maps.small (one_page-HasPte v)

abbrev find_vma : ℕ → ℕ → Option Vma
find_vma mm v = if ltb v 0x3000 then some (record { vm_start = 0x1000; vm_end = 0x3000 }) else none

walk_prints : (walk_userspace_page_table one_page (some 7) 0x1234 machine).1.printed ≡ 0x5234 ∷ []
unfolding walk_userspace_page_table
walk_prints = refl

walk_writes : (walk_userspace_page_table one_page (some 7) 0x1234 machine).1.mem 0x523c ≡ b'U'
unfolding walk_userspace_page_table capitalize
walk_writes = refl

one_page-IsMasked : IsMasked one_page
one_page-IsMasked = record { pmds = 2 ^ 31; puds = 2 ^ 22; by_pmd = refl; by_pud = refl }

abbrev task : Option ℕ
task = some 7

abbrev walked : Result ℕ × Machine
walked = walk_userspace_page_table one_page task 0x1234 machine

walk-decides_example :
    ((task ≡ none) × (walked ≡ (err Errno.einval, machine)))
    ⊎ ((mm : ℕ) × (task ≡ some mm)
        × (((paddr flags : ℕ) × (a : Option ℕ) × Translates one_page mm 0x1234 paddr flags a
              × (walked ≡ (ok 0, after (paddr + flags * 2 ^ 52) a machine)))
            ⊎ (((paddr flags : ℕ) (a : Option ℕ) → ¬ Translates one_page mm 0x1234 paddr flags a)
                × (walked ≡ (err Errno.efault, machine)))))
walk-decides_example = walk-decides one_page one_page-IsMasked task 0x1234 machine

validate-decides_example :
    (InVma find_vma 7 0x1234
      × (validate_user_address find_vma (some 7) 0x1234 machine ≡ (ok 0, machine)))
    ⊎ (¬ InVma find_vma 7 0x1234
        × (validate_user_address find_vma (some 7) 0x1234 machine ≡ (err Errno.efault, machine)))
validate-decides_example = validate-decides find_vma 7 0x1234 machine

abbrev idle : Userwalk
idle = record { machine = machine; status = blank; target_task = none }

abbrev parse : List ℕ → Result ℕ
parse text = ok 0x1234

vaddr_write-decides_example :
    let r =
      vaddr_write one_page find_vma parse
        (some (record { mm = some 7 }))
        4
        (some (b'1' ∷ []))
        idle in
    Served one_page find_vma parse (some (record { mm = some 7 })) 4 (some (b'1' ∷ [])) idle r
    ⊎ Refused idle 4 r
vaddr_write-decides_example =
    vaddr_write-decides one_page find_vma parse (some (record { mm = some 7 })) 4 (some (b'1' ∷ []))
      idle

Maps-offset_example :
    physical (2 ^ 12) ((5 * 2 ^ 12 + 1) % 2 ^ 52) 0x1234 % 2 ^ 12 ≡ 0x1234 % 2 ^ 12
Maps-offset_example = Maps-offset one_page one_page-IsRegular 0x1234 (mapped 0x1234)

huge_address-offset_example : huge_address one_page 5 0x1234 ≡ 5 * 2 ^ 12 + 0x1234 % 2 ^ 21
huge_address-offset_example = huge_address-offset one_page one_page-IsRegular 0x1234 5

walk-bounds_example :
    (p : ℕ) × (a : ℕ) × Maps one_page 7 0x1234 p (some a)
    × (a ≤ 0x523c)
    × (0x523c < a + test_length)
unfolding walk_userspace_page_table capitalize
walk-bounds_example = walk-bounds one_page 7 0x1234 machine 0x523c (omega arith)

walk-overrun_example :
    (walk_userspace_page_table one_page (some 7) 0x1ffe machine).1.mem (5 * 2 ^ 12 + 2 ^ 12) ≢ b'u'
unfolding small_address
walk-overrun_example =
    walk-overrun one_page 7 0x1ffe machine 5 (mapped 0x1ffe) (omega arith) (omega arith)
      (λ i lt. refl)

capitalize-upper_example :
    capitalize 9 100 (λ a. b'u') 104
    ≡ (if leb 100 104 && ltb 104 (100 + strnlen 9 100 (λ a. b'u')) then upper b'u' else b'u')
capitalize-upper_example = capitalize-upper 9 100 (λ a. b'u') 104

capitalize_idem_example :
    capitalize 9 100 (capitalize 9 100 (λ a. b'u')) 104 ≡ capitalize 9 100 (λ a. b'u') 104
capitalize_idem_example = capitalize_idem 9 100 (λ a. b'u') 104
