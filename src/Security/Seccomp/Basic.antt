-- ===== src/Security/Seccomp/Basic.antt =====
-- security/part1/seccomp/seccomp_basic.c
pub mod Killed
use linux_kernel_prog.Prelude.{ℕ, zero, suc, List, [], ◌∷◌, ◌++◌}
use linux_kernel_prog.Kernel.{Result, ok, err}
use linux_kernel_prog.Security.Keys.{Piece, text, decimal}
use linux_kernel_prog.Security.Seccomp.{
  Seccomp, number, Process, M, ◌>>=◌, ◌>>◌, pure, printf, act, syscall, write, sys_getpid,
  sys_getuid,
}

abbrev mode_name : ℕ → Piece
mode_name zero = text "(DISABLED)\n"
mode_name (suc zero) = text "(STRICT)\n"
mode_name (suc (suc zero)) = text "(FILTER)\n"
mode_name _ = text "(UNKNOWN)\n"

module _ (K : Seccomp) where
  unfoldable pub get_mode : M K.State ℕ
  get_mode p = pure (K.get_mode p.kernel) p

  unfoldable pub print_status : M K.State (Unit {0})
  unfolding get_mode
  print_status = do
    mode ← get_mode
    pid ← syscall K.call sys_getpid
    printf (
        text "\n=== Status ===\nPID: "
        ∷ number pid
        ∷ text "\nSECCOMP mode: "
        ∷ decimal mode
        ∷ text " "
        ∷ mode_name mode
        ∷ text "\n"
        ∷ [])

  unfoldable pub report_calls : M K.State (Unit {0})
  report_calls = do
    printf (text "=== Before SECCOMP ===\n" ∷ [])
    pid ← syscall K.call sys_getpid
    printf (text "getpid(): " ∷ number pid ∷ text " (ALLOWED)\n" ∷ [])
    uid ← syscall K.call sys_getuid
    printf (text "getuid(): " ∷ number uid ∷ text " (ALLOWED)\n" ∷ [])
    printf (
        text "\n=== Enabling SECCOMP STRICT mode ===\n"
        ∷ text "Only read/write/exit/sigreturn will be allowed\n"
        ∷ text "All other syscalls will KILL the process\n\n"
        ∷ [])

  -- What follows `prctl(PR_SET_SECCOMP, SECCOMP_MODE_STRICT)`.
  unfoldable pub after_strict : Result ℕ → M K.State ℕ
  after_strict (ok zero) = do
    write K.call (text "SECCOMP enabled successfully\n\n")
    write K.call (text "Attempting getpid()...\n")
    r ← syscall K.call sys_getpid
    write K.call (text "(Should not reach here)\n")
    pure 0
  after_strict _ = do printf (text "Failed to enable SECCOMP\n" ∷ []); pure 1

  unfoldable pub main : M K.State ℕ
  unfolding print_status report_calls after_strict
  main = do
    printf (text "=== SECCOMP Strict Mode Test ===\n" ∷ [])
    print_status
    report_calls
    r ← act K.set_strict
    after_strict r
