-- ===== src/Security/Seccomp/Scmp.antt =====
-- security/part1/seccomp/seccomp_test.c. libseccomp is a record: a filter under construction, the
-- rule that is added to it, and the call that installs it.
pub mod Restricted
use linux_kernel_prog.Prelude.{
  ℕ, zero, suc, Option, none, some, List, [], ◌∷◌, ◌++◌, Bool, true, false, ◌==◌, if◌then◌else◌,
}
use linux_kernel_prog.Kernel.{Result, ok, err, Errno}
use linux_kernel_prog.Security.Keys.{Piece, text, decimal, reason}
use linux_kernel_prog.Security.Seccomp.{
  Seccomp, number, Process, M, ◌>>=◌, ◌>>◌, pure, printf, act, syscall, sys_getuid, sys_getpid,
  sys_gettimeofday, sys_sethostname, sys_reboot, sys_ptrace,
}

-- SCMP_ACT_KILL, and SCMP_ACT_ERRNO(EPERM).
pub data Action : Type 0 where
  act_kill act_eperm : Action

-- `seccomp_init(SCMP_ACT_ALLOW)` gives no filter or one that allows everything. `seccomp_rule_add` may
-- fail, and the program does not look at what it returns.
pub record Scmp (S : Type 0) : Type 1 where
  pub Ctx : Type 0
  pub init : Option Ctx
  pub rule_add : Ctx → Action → (nr : ℕ) → Result ℕ × Ctx
  pub load : Ctx → S → Result ℕ × S

abbrev pub mode_name : ℕ → Piece
mode_name zero = text "DISABLED\n"
mode_name (suc zero) = text "STRICT\n"
mode_name (suc (suc zero)) = text "FILTER ACTIVE\n"
mode_name _ = text "UNKNOWN\n"

-- ENOSYS has the number 38.
abbrev pub allowed_line : Result ℕ → Piece
allowed_line (err (Errno.code n)) = if n == 38 then text "BLOCKED\n" else text "ALLOWED\n"
allowed_line _ = text "ALLOWED\n"

abbrev blocked_lines : Result ℕ → Errno → List Piece
blocked_lines (ok zero) e = text "ALLOWED\n" ∷ []
blocked_lines _ e = text "BLOCKED (" ∷ reason e ∷ text ")\n" ∷ []

module _ (K : Seccomp) where
  unfoldable pub print_mode : M K.State (Unit {0})
  print_mode p = printf (text "SECCOMP: " ∷ mode_name (K.get_mode p.kernel) ∷ text "\n" ∷ []) p

  unfoldable pub print_status : M K.State (Unit {0})
  unfolding print_mode
  print_status = do
    uid ← syscall K.call sys_getuid
    printf (text "\n=== Status ===\nUID: " ∷ number uid ∷ text "\n" ∷ [])
    pid ← syscall K.call sys_getpid
    printf (text "PID: " ∷ number pid ∷ text "\n" ∷ [])
    print_mode

  unfoldable pub test_allowed_syscall : M K.State (Unit {0})
  test_allowed_syscall = do
    printf (text "gettimeofday(): " ∷ [])
    r ← syscall K.call sys_gettimeofday
    printf (allowed_line r ∷ [])

  -- The line with `strerror(errno)`.
  unfoldable pub print_blocked : Result ℕ → M K.State (Unit {0})
  print_blocked r p = printf (blocked_lines r p.errno) p

  unfoldable pub test_blocked_syscall : M K.State (Unit {0})
  unfolding print_blocked
  test_blocked_syscall = do
    printf (text "sethostname(): " ∷ [])
    r ← syscall K.call sys_sethostname
    print_blocked r

  unfoldable pub test_dangerous_syscall : M K.State (Unit {0})
  unfolding print_blocked
  test_dangerous_syscall = do
    printf (text "reboot(): " ∷ [])
    r ← syscall K.call sys_reboot
    print_blocked r

  module _ (L : Scmp K.State) where
    -- The filter with its three rules.
    unfoldable pub with_rules : L.Ctx → L.Ctx
    with_rules ctx =
        let killing : L.Ctx = (L.rule_add ctx act_kill sys_reboot).1 in
        let denying : L.Ctx = (L.rule_add killing act_eperm sys_sethostname).1 in
        (L.rule_add denying act_eperm sys_ptrace).1

    -- The output, the errors included, in the order in which it is written.
    unfoldable pub apply_seccomp_filter : M K.State (Result (Unit {0}))
    unfolding with_rules
    apply_seccomp_filter = do
      printf (text "=== Applying SECCOMP Filter ===\n" ∷ [])
      elim L.init [
        | none ↦ do printf (text "Failed to init seccomp\n" ∷ []); pure (err (Errno.code 1))
        | some ctx ↦ do
          printf (
              text "Blocking:\n  reboot() -> KILL\n  sethostname() -> EPERM\n"
              ∷ text "  ptrace() -> EPERM\n"
              ∷ [])
          r ← act (L.load (with_rules ctx))
          elim r [
            | err e ↦ do printf (text "Failed to load filter\n" ∷ []); pure (err (Errno.code 1))
            | ok _ ↦ do printf (text "Filter loaded\n\n" ∷ []); pure (ok tt)
          ]
      ]

    unfoldable pub last_test : (test_kill : Bool) → M K.State (Unit {0})
    unfolding test_dangerous_syscall
    last_test true = do
      printf (text "\nAttempting reboot() (will kill process):\n" ∷ [])
      test_dangerous_syscall
      printf (text "(Should not reach here)\n" ∷ [])
    last_test false = printf (
        text "\nSkipping reboot() test (would kill process)\n"
        ∷ text "Run with --test-kill to test it\n"
        ∷ [])

    -- The rest of `main` behind the filter.
    unfoldable pub after_filter : (test_kill : Bool) → M K.State ℕ
    unfolding print_status test_allowed_syscall test_blocked_syscall last_test
    after_filter test_kill = do
      print_status
      printf (text "=== After SECCOMP ===\n" ∷ [])
      test_allowed_syscall
      test_blocked_syscall
      last_test test_kill
      pure 0

    -- `test_kill` is whether the first argument is `--test-kill`.
    unfoldable pub main : (test_kill : Bool) → M K.State ℕ
    unfolding print_status test_allowed_syscall test_blocked_syscall test_dangerous_syscall
        apply_seccomp_filter after_filter
    main test_kill = do
      printf (text "\n=== SECCOMP Test ===\n" ∷ [])
      print_status
      printf (text "=== Before SECCOMP ===\n" ∷ [])
      test_allowed_syscall
      test_blocked_syscall
      test_dangerous_syscall
      printf (text "\n" ∷ [])
      r ← apply_seccomp_filter
      elim r [ err e ↦ pure 1 | ok _ ↦ after_filter test_kill ]
