-- ===== src/Vm/Userwalk/Walk.antt =====
-- The walk of userwalk.c against `Maps`.
use linux_kernel_prog.Prelude.{
  ℕ, ◌≡◌, refl, ◌⊎◌, inl, inr, Bool, true, false, Option, none, some, ◌∷◌, arith, Bool-cases, ap,
  ◌∙◌, ◌||◌,
}
use linux_kernel_prog.Kernel.{Result, ok, err, Errno}
use linux_kernel_prog.Vm.Mmu.{Mmu, Machine, print}
use linux_kernel_prog.Vm.Capitalize.{capitalize, modify_page}
use linux_kernel_prog.Vm.Userwalk.{
  test_length, mmap_read_lock, fault, done, walk_pte, walk_pmd, walk_pud, walk_p4d,
  walk_userspace_page_table,
}
use linux_kernel_prog.Vm.Userwalk.Translation.{
  pgd_of, p4d_of, pud_of, pmd_of, pte_of, HasPud, HasPmd, opened, Maps, gigabyte, huge, small,
}

-- Memory after the bytes at an address, if there is one, have become capitals.
abbrev pub written : Option ℕ → (ℕ → ℕ) → ℕ → ℕ
written none mem = mem
written (some a) mem = capitalize test_length a mem

-- The machine after a successful walk.
abbrev pub after : ℕ → Option ℕ → Machine → Machine
after paddr a s = record s { mem = written a s.mem; printed = paddr ∷ s.printed }

modify_page-written :
    (page : Option ℕ) (address : ℕ → ℕ) (paddr : ℕ) (s : Machine)
    → modify_page test_length page address (print paddr s) ≡ after paddr (opened page address) s
unfolding modify_page
modify_page-written none address paddr s = refl
modify_page-written (some page) address paddr s = refl

fault-lock : (s : Machine) → fault (mmap_read_lock s) ≡ (err Errno.efault, s)
fault-lock s = ground arith

done-after-lock :
    (p : ℕ) (a : Option ℕ) (s : Machine) → done (after p a (mmap_read_lock s)) ≡ (ok 0, after p a s)
done-after-lock p a s = ground arith

module _ (mmu : Mmu) (mm v : ℕ) where
  open mmu use {
    pgd_none, pgd_bad, p4d_none, p4d_bad, pud_none, pud_bad, pud_leaf, pmd_none, pmd_bad, pmd_leaf,
    pte_none, pte_present, pmd_page, pte_page,
  }

  -- A walk from within, the lock held: a translation is found, or the early return is taken.
  Outcome : Machine → Result ℕ × Machine → Type 0
  Outcome s r =
      ((p : ℕ) × (a : Option ℕ) × Maps mmu mm v p a × (r ≡ done (after p a s))) ⊎ (r ≡ fault s)

  walk_pte-Outcome :
      (s : Machine)
      → HasPmd mmu mm v
      → pmd_leaf (pmd_of mmu mm v) ≡ false
      → pmd_bad (pmd_of mmu mm v) ≡ false
      → Outcome s (walk_pte mmu (pte_of mmu mm v) v s)
  unfolding Outcome walk_pte
  walk_pte-Outcome s h t g = elim (Bool-cases (pte_none (pte_of mmu mm v))) [
    | inl e ↦ rw e (inr refl)
    | inr used ↦ rw used (elim (Bool-cases (pte_present (pte_of mmu mm v))) [
      | inl here ↦ rw here (
          inl (
            _,
            _,
            small (record {
              upper = h;
              pmd_table = t;
              pmd_good = g;
              pte_used = used;
              present = here;
            }),
            ap done (modify_page-written (pte_page (pte_of mmu mm v)) _ _ s),
          ))
      | inr e ↦ rw e (inr refl)
    ])
  ]

  walk_pmd-Outcome :
      (s : Machine)
      → HasPud mmu mm v
      → pud_leaf (pud_of mmu mm v) ≡ false
      → pud_bad (pud_of mmu mm v) ≡ false
      → Outcome s (walk_pmd mmu (pmd_of mmu mm v) v s)
  unfolding Outcome walk_pmd
  walk_pmd-Outcome s h t g = elim (Bool-cases (pmd_none (pmd_of mmu mm v))) [
    | inl e ↦ rw e (inr refl)
    | inr used ↦
        let below : HasPmd mmu mm v = record {
          upper = h;
          pud_table = t;
          pud_good = g;
          pmd_used = used;
        } in
        rw used (elim (Bool-cases (pmd_leaf (pmd_of mmu mm v))) [
          | inl leaf ↦ rw leaf (
              inl (
                _,
                _,
                huge below leaf,
                ap done (modify_page-written (pmd_page (pmd_of mmu mm v)) _ _ s),
              ))
          | inr table ↦ rw table (elim (Bool-cases (pmd_bad (pmd_of mmu mm v))) [
            | inl e ↦ rw e (inr refl)
            | inr good ↦ rw good (walk_pte-Outcome s below table good)
          ])
        ])
  ]

  walk_pud-Outcome :
      (s : Machine)
      → (pud_none (pud_of mmu mm v) ≡ false → HasPud mmu mm v)
      → Outcome s (walk_pud mmu (pud_of mmu mm v) v s)
  unfolding Outcome walk_pud
  walk_pud-Outcome s upper = elim (Bool-cases (pud_none (pud_of mmu mm v))) [
    | inl e ↦ rw e (inr refl)
    | inr used ↦ rw used (elim (Bool-cases (pud_leaf (pud_of mmu mm v))) [
      | inl leaf ↦ rw leaf (inl (_, _, gigabyte (upper used) leaf, refl))
      | inr table ↦ rw table (elim (Bool-cases (pud_bad (pud_of mmu mm v))) [
        | inl e ↦ rw e (inr refl)
        | inr good ↦ rw good (walk_pmd-Outcome s (upper used) table good)
      ])
    ])
  ]

  or_false : (a b : Bool) → ((a || b) ≡ true) ⊎ ((a ≡ false) × (b ≡ false))
  or_false true b = inl refl
  or_false false true = inl refl
  or_false false false = inr (refl, refl)

  walk_p4d-Outcome :
      (s : Machine)
      → pgd_none (pgd_of mmu mm v) ≡ false
      → pgd_bad (pgd_of mmu mm v) ≡ false
      → Outcome s (walk_p4d mmu (p4d_of mmu mm v) v s)
  unfolding Outcome walk_p4d
  walk_p4d-Outcome s used good =
      elim (or_false (p4d_none (p4d_of mmu mm v)) (p4d_bad (p4d_of mmu mm v))) [
        | inl e ↦ rw e (inr refl)
        | inr (used', good') ↦
            rw (used', good')
              (walk_pud-Outcome s λ pud_used. record {
                pgd_used = used;
                pgd_good = good;
                p4d_used = used';
                p4d_good = good';
                pud_used = pud_used;
              })
      ]

  walk-total :
      (s : Machine)
      → ((p : ℕ) × (a : Option ℕ) × Maps mmu mm v p a
          × (walk_userspace_page_table mmu (some mm) v s ≡ (ok 0, after p a s)))
        ⊎ (walk_userspace_page_table mmu (some mm) v s ≡ (err Errno.efault, s))
  unfolding walk_userspace_page_table Outcome
  walk-total s = elim (or_false (pgd_none (pgd_of mmu mm v)) (pgd_bad (pgd_of mmu mm v))) [
    | inl e ↦ rw e (inr (fault-lock s))
    | inr (used, good) ↦
        rw (used, good)
          (elim (walk_p4d-Outcome (mmap_read_lock s) used good) [
            | inl (p, a, m, e) ↦ inl (p, a, m, e ∙ done-after-lock p a s)
            | inr e ↦ inr (e ∙ fault-lock s)
          ])
  ]

  pub walk-Maps :
      {p : ℕ} {a : Option ℕ} (s : Machine)
      → Maps mmu mm v p a
      → walk_userspace_page_table mmu (some mm) v s ≡ (ok 0, after p a s)
  unfolding walk_userspace_page_table
  walk-Maps s (gigabyte h leaf) = ground arith
  walk-Maps s (huge h leaf) = ground arith
  walk-Maps s (small h) = ground arith

  -- A walk through an address space ends in one of two ways: the address is mapped, and the walk
  -- returns 0, prints the number that it forms and changes nothing but the bytes that it opens; or
  -- the address is not mapped, and the walk returns -EFAULT and leaves the machine as it was.
  pub walk-cases :
      (s : Machine)
      → ((p : ℕ) × (a : Option ℕ) × Maps mmu mm v p a
          × (walk_userspace_page_table mmu (some mm) v s ≡ (ok 0, after p a s)))
        ⊎ (((p : ℕ) (a : Option ℕ) → ¬ Maps mmu mm v p a)
            × (walk_userspace_page_table mmu (some mm) v s ≡ (err Errno.efault, s)))
  walk-cases s = elim (walk-total s) [
    | inl found ↦ inl found
    | inr e ↦ inr ((λ p a m. cc (walk-Maps s m)), e)
  ]
