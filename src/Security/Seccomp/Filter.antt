-- ===== src/Security/Seccomp/Filter.antt =====
-- security/part1/seccomp/seccomp_modes.c: the filter of `demo_mode_filter`, and what a filter does.
use linux_kernel_prog.Prelude.{
  ℕ, zero, suc, ◌+◌, ◌≡◌, refl, ◌∙◌, Option, none, some, List, [], ◌∷◌, Bool, true, false, ◌&&◌,
  ◌||◌, ◌==◌, ltb, length, get_elem?, if◌then◌else◌, inl, inr, Bool-cases,
}
use linux_kernel_prog.Security.Seccomp.{
  Insn, load, jump_eq, ret, sys_read, sys_write, sys_exit, sys_exit_group,
}

-- The offsets in `seccomp_data`, and the values that are tested and returned.
abbrev pub nr_offset : ℕ
nr_offset = 0

abbrev pub arch_offset : ℕ
arch_offset = 4

abbrev pub audit_arch_x86_64 : ℕ
audit_arch_x86_64 = 3221225534

-- SECCOMP_RET_ERRNO | EPERM, and SECCOMP_RET_ALLOW.
abbrev pub ret_eperm : ℕ
ret_eperm = 327681

abbrev pub ret_allow : ℕ
ret_allow = 2147418112

abbrev pub filter : List Insn
filter =
    load arch_offset
    ∷ jump_eq audit_arch_x86_64 0 7
    ∷ load nr_offset
    ∷ jump_eq sys_read 4 0
    ∷ jump_eq sys_write 3 0
    ∷ jump_eq sys_exit 2 0
    ∷ jump_eq sys_exit_group 1 0
    ∷ ret ret_eperm
    ∷ ret ret_allow
    ∷ []

-- What a filter can load: the number at offset 0, the architecture at 4, and behind them the
-- instruction pointer and the arguments in words of 32 bits.
pub record SeccompData : Type 0 where
  pub nr : ℕ
  pub arch : ℕ
  pub behind : ℕ → ℕ

abbrev field : SeccompData → (offset : ℕ) → ℕ
field d offset = if offset == 0 then d.nr else if offset == 4 then d.arch else d.behind offset

-- A filter on a system call, from an instruction on. Jumps go forward, so one step for each
-- instruction is enough; `none` has run off the end.

unfoldable pub execute : (steps : ℕ) → List Insn → SeccompData → (pc acc : ℕ) → Option ℕ
execute zero prog d pc acc = none
execute (suc n) prog d pc acc = elim (get_elem? prog pc) [
  | none ↦ none
  | some i ↦ elim i [
    | load offset ↦ execute n prog d (pc + 1) (field d offset)
    | jump_eq k jt jf ↦ execute n prog d (pc + 1 + (if acc == k then jt else jf)) acc
    | ret value ↦ some value
  ]
]

unfoldable pub run_filter : List Insn → SeccompData → Option ℕ
unfolding execute
run_filter prog d = execute (length prog) prog d 0 0

-- What the kernel asks of a filter before it takes it: no jump leads out of the program.
abbrev pub jumps_inside : (size pc : ℕ) → List Insn → Bool
jumps_inside size pc [] = true
jumps_inside size pc (load offset ∷ is) = jumps_inside size (suc pc) is
jumps_inside size pc (ret value ∷ is) = jumps_inside size (suc pc) is
jumps_inside size pc (jump_eq k jt jf ∷ is) =
    ltb (pc + jt + 1) size && ltb (pc + jf + 1) size && jumps_inside size (suc pc) is

-- What the comments of the demonstration promise: reads, writes and exits.
abbrev pub permitted : ℕ → Bool
permitted nr = (nr == sys_read) || (nr == sys_write) || (nr == sys_exit) || (nr == sys_exit_group)

module _ (prog : List Insn) (d : SeccompData) (n pc acc : ℕ) where
  load_step :
      (offset : ℕ)
      → get_elem? prog pc ≡ some (load offset)
      → execute (suc n) prog d pc acc ≡ execute n prog d (pc + 1) (field d offset)
  unfolding execute
  load_step offset h = rw (execute, h) refl

  jump_step :
      (k jt jf : ℕ) {b : Bool}
      → get_elem? prog pc ≡ some (jump_eq k jt jf)
      → (acc == k) ≡ b
      → execute (suc n) prog d pc acc ≡ execute n prog d (pc + 1 + (if b then jt else jf)) acc
  unfolding execute
  jump_step k jt jf h e = rw (execute, h, e) refl

  ret_step :
      (value : ℕ)
      → get_elem? prog pc ≡ some (ret value)
      → execute (suc n) prog d pc acc ≡ some value
  unfolding execute
  ret_step value h = rw (execute, h) refl

  end_step : get_elem? prog pc ≡ none → execute (suc n) prog d pc acc ≡ none
  unfolding execute
  end_step h = rw (execute, h) refl

-- From the first test of the number on.
numbers-decide :
    (d : SeccompData)
    → execute 6 filter d 3 d.nr ≡ some (if permitted d.nr then ret_allow else ret_eperm)
numbers-decide d = elim (Bool-cases (d.nr == sys_read)) [
  | inl a ↦
      rw a (jump_step filter d 5 3 d.nr sys_read 4 0 refl a ∙ ret_step filter d 4 8 d.nr _ refl)
  | inr a ↦
      jump_step filter d 5 3 d.nr sys_read 4 0 refl a ∙ elim (Bool-cases (d.nr == sys_write)) [
        | inl b ↦
            rw (a, b)
              (jump_step filter d 4 4 d.nr sys_write 3 0 refl b ∙ ret_step filter d 3 8 d.nr _ refl)
        | inr b ↦
            jump_step filter d 4 4 d.nr sys_write 3 0 refl b
            ∙ elim (Bool-cases (d.nr == sys_exit)) [
              | inl c ↦
                  rw (a, b, c)
                    (jump_step filter d 3 5 d.nr sys_exit 2 0 refl c
                      ∙ ret_step filter d 2 8 d.nr _ refl)
              | inr c ↦
                  jump_step filter d 3 5 d.nr sys_exit 2 0 refl c
                  ∙ elim (Bool-cases (d.nr == sys_exit_group)) [
                    | inl x ↦
                        rw (a, b, c, x)
                          (jump_step filter d 2 6 d.nr sys_exit_group 1 0 refl x
                            ∙ ret_step filter d 1 8 d.nr _ refl)
                    | inr x ↦
                        rw (a, b, c, x)
                          (jump_step filter d 2 6 d.nr sys_exit_group 1 0 refl x
                            ∙ ret_step filter d 1 7 d.nr _ refl)
                  ]
            ]
      ]
]

-- The kernel does not take the filter.
pub filter-outside : jumps_inside (length filter) 0 filter ≡ false
filter-outside = refl

-- Run on a system call of x86-64, whatever else the call's data are, the filter allows exactly reads,
-- writes and the two exits, and denies every other with EPERM; run on a call of another architecture,
-- it jumps past its last instruction. A jump of it leads out of the program, for which the kernel
-- does not take a filter.
pub filter-decides :
    (d : SeccompData)
    → (run_filter filter d ≡ (
        if d.arch == audit_arch_x86_64
        then some (if permitted d.nr then ret_allow else ret_eperm)
        else none))
      × (jumps_inside (length filter) 0 filter ≡ false)
unfolding run_filter
filter-decides d = (
  load_step filter d 8 0 0 arch_offset refl ∙ elim (Bool-cases (d.arch == audit_arch_x86_64)) [
    | inl e ↦ rw e (
        jump_step filter d 7 1 d.arch audit_arch_x86_64 0 7 refl e
        ∙ (load_step filter d 6 2 d.arch nr_offset refl ∙ numbers-decide d))
    | inr e ↦ rw e (
        jump_step filter d 7 1 d.arch audit_arch_x86_64 0 7 refl e
        ∙ end_step filter d 6 9 d.arch refl)
  ],
  filter-outside,
)
