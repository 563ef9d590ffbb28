-- ===== src/Vm/Userwalk/Request/Outcome.antt =====
-- What the requests to the files of userwalk.c come to.
use linux_kernel_prog.Prelude.{
  ℕ, ◌≡◌, ◌≤◌, ◌<◌, refl, ◌⊎◌, inl, inr, Option, none, some, List, arith, leb, ltb, Bool-cases,
  Option-cases,
}
use linux_kernel_prog.Kernel.{Result, ok, err, Errno, Result-cases}
use linux_kernel_prog.Vm.Mmu.{Mmu, Machine}
use linux_kernel_prog.Vm.Userwalk.{max_addr_len, Vma, validate_user_address}
use linux_kernel_prog.Vm.Userwalk.Translation.{Maps}
use linux_kernel_prog.Vm.Userwalk.Walk.{after, walk-cases}
use linux_kernel_prog.Vm.Userwalk.Request.{
  Status, Task, Userwalk, serve_mm, serve_task, vaddr_write, bad_format, no_context, walk_failed,
  success,
}

-- The address of a request is looked at: it lies in a mapping of the task.
abbrev pub InVma : (ℕ → ℕ → Option Vma) → ℕ → ℕ → Type 0
InVma find_vma mm v = (vma : Vma) × (find_vma mm v ≡ some vma) × (vma.vm_start ≤ v)

-- Validation returns 0 exactly for an address that lies at or above the start of the region that
-- `find_vma` gives, returns -EFAULT for any other, and changes nothing, the lock included.
pub validate-decides :
    (find_vma : ℕ → ℕ → Option Vma) (mm v : ℕ) (s : Machine)
    → (InVma find_vma mm v × (validate_user_address find_vma (some mm) v s ≡ (ok 0, s)))
      ⊎ (¬ InVma find_vma mm v
          × (validate_user_address find_vma (some mm) v s ≡ (err Errno.efault, s)))
unfolding validate_user_address
validate-decides find_vma mm v s = elim (Option-cases (find_vma mm v)) [
  | inl e ↦ inr ((λ (vma, f, le). cc), rw (e, validate_user_address) (ground arith))
  | inr (vma, e) ↦ elim (Bool-cases (ltb v vma.vm_start)) [
    | inl low ↦
        inr ((λ (vma', f, le). ground arith), rw (e, validate_user_address, low) (ground arith))
    | inr high ↦ inl ((vma, e, ground arith), rw (e, validate_user_address, high) (ground arith))
  ]
]

-- What a request that is served comes to: its text is a number, the task has an `mm`, the number
-- lies in a mapping and is mapped; the walk's effect, the success text and the byte count follow.
pub record Served (mmu : Mmu) (find_vma : ℕ → ℕ → Option Vma) (kstrtoul : List ℕ → Result ℕ)
    (current : Option Task) (count : ℕ) (copied : Option (List ℕ)) (w : Userwalk)
    (r : Result ℕ × Userwalk) : Type 0 where
  pub text : List ℕ
  pub vaddr : ℕ
  pub mm : ℕ
  pub paddr : ℕ
  pub opened : Option ℕ
  pub short : count < max_addr_len
  pub arrived : copied ≡ some text
  pub parsed : kstrtoul text ≡ ok vaddr
  pub owner : current ≡ some (record { mm = some mm })
  pub in_vma : InVma find_vma mm vaddr
  pub mapped : Maps mmu mm vaddr paddr opened
  pub result : r ≡ (
    ok count,
    record { machine = after paddr opened w.machine; status = success; target_task = current },
  )

-- A request that is not served leaves the machine alone and says so in its result, or, where the
-- walk failed after a valid request, in the status.
pub record Refused (w : Userwalk) (count : ℕ) (r : Result ℕ × Userwalk) : Type 0 where
  pub machine : r.1.machine ≡ w.machine
  pub reported :
      ((e : Errno) × (r.0 ≡ err e)) ⊎ ((r.0 ≡ ok count) × (r.1.status ≡ walk_failed Errno.efault))

-- What is left of a request once its text is a number: `Served` less the parts about the text.
record ServedAt (mmu : Mmu) (find_vma : ℕ → ℕ → Option Vma) (current : Option Task)
    (vaddr count : ℕ) (w : Userwalk) (r : Result ℕ × Userwalk) : Type 0 where
  mm : ℕ
  paddr : ℕ
  opened : Option ℕ
  owner : current ≡ some (record { mm = some mm })
  in_vma : InVma find_vma mm vaddr
  mapped : Maps mmu mm vaddr paddr opened
  result : r ≡ (
    ok count,
    record { machine = after paddr opened w.machine; status = success; target_task = current },
  )

Refused-err :
    {w : Userwalk} {count : ℕ} (e : Errno) (st : Status) (t : Option Task)
    → Refused w count (err e, record w { status = st; target_task = t })
Refused-err e st t = record { machine = refl; reported = inl (e, refl) }

module _ (mmu : Mmu) (find_vma : ℕ → ℕ → Option Vma) (kstrtoul : List ℕ → Result ℕ) where
  serve_mm-decides :
      (m : Option ℕ) (vaddr count : ℕ) (w : Userwalk)
      → let w' = record w { target_task = some (record { mm = m }) } in
        let r = serve_mm mmu find_vma kstrtoul m vaddr count w' in
        ServedAt mmu find_vma (some (record { mm = m })) vaddr count w r ⊎ Refused w count r
  unfolding serve_mm
  serve_mm-decides none vaddr count w = inr (Refused-err Errno.esrch no_context _)
  serve_mm-decides (some mm) vaddr count w = elim (validate-decides find_vma mm vaddr w.machine) [
    | inr (_, e) ↦ inr (rw e (record { machine = refl; reported = inl (_, refl) }))
    | inl (lies, e) ↦ rw e (elim (walk-cases mmu mm vaddr w.machine) [
      | inl (p, a, m, f) ↦ rw f (
          inl (record {
            mm = mm;
            paddr = p;
            opened = a;
            owner = refl;
            in_vma = lies;
            mapped = m;
            result = refl;
          }))
      | inr (_, f) ↦ rw f (inr (record { machine = refl; reported = inr (refl, refl) }))
    ])
  ]

  serve_task-decides :
      (current : Option Task) (vaddr count : ℕ) (w : Userwalk)
      → let r = serve_task mmu find_vma kstrtoul current vaddr count w in
        ServedAt mmu find_vma current vaddr count w r ⊎ Refused w count r
  unfolding serve_task
  serve_task-decides none vaddr count w = inr (Refused-err Errno.esrch no_context none)
  serve_task-decides (some t) vaddr count w = serve_mm-decides t.mm vaddr count w

  -- Every write to the `vaddr` file is served, and then has the effect of the walk on the mapped
  -- address, or refused, and then leaves memory, lock and printed addresses as they were and
  -- reports it; in one case, a walk that fails, only through the status text.
  pub vaddr_write-decides :
      (current : Option Task) (count : ℕ) (copied : Option (List ℕ)) (w : Userwalk)
      → let r = vaddr_write mmu find_vma kstrtoul current count copied w in
        Served mmu find_vma kstrtoul current count copied w r ⊎ Refused w count r
  unfolding vaddr_write
  vaddr_write-decides current count copied w = elim (Bool-cases (leb max_addr_len count)) [
    | inl long ↦ rw (vaddr_write, long) (inr (Refused-err Errno.einval w.status w.target_task))
    | inr short ↦
        rw (vaddr_write, short)
          (elim (Option-cases copied) [
            | inl e ↦ rw e (inr (Refused-err Errno.efault w.status w.target_task))
            | inr (text, arrived) ↦ rw arrived (elim (Result-cases (kstrtoul text)) [
              | inr (e, bad) ↦ rw bad (inr (Refused-err e bad_format w.target_task))
              | inl (vaddr, good) ↦ rw good (elim (serve_task-decides current vaddr count w) [
                | inr r ↦ inr r
                | inl s ↦ inl (record {
                  text = text;
                  vaddr = vaddr;
                  mm = s.mm;
                  paddr = s.paddr;
                  opened = s.opened;
                  short = ground arith;
                  arrived = refl;
                  parsed = good;
                  owner = s.owner;
                  in_vma = s.in_vma;
                  mapped = s.mapped;
                  result = s.result;
                })
              ])
            ])
          ])
  ]
