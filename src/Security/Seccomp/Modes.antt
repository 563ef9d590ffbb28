-- ===== src/Security/Seccomp/Modes.antt =====
-- security/part1/seccomp/seccomp_modes.c. `scan` is `scanf("%d", ...)`: the number if there is one,
-- and the input that is left.
pub mod Menu
pub mod Ends
pub mod Refused
use Prim.Native.String.{String}
use linux_kernel_prog.Prelude.{
  ℕ, zero, suc, Option, none, some, List, [], ◌∷◌, ◌++◌, Bool, ◌==◌, if◌then◌else◌,
}
use linux_kernel_prog.Kernel.{Result, ok, err}
use linux_kernel_prog.Security.Keys.{Piece, text, decimal, reason}
use linux_kernel_prog.Security.Seccomp.{
  Seccomp, number, Process, M, Run, ran, ◌>>=◌, ◌>>◌, pure, printf, perror, act, syscall, write,
  sys_write, sys_getpid, sys_getuid, sys_gettimeofday, sys_sethostname,
}
use linux_kernel_prog.Security.Seccomp.Filter.{filter}

abbrev mode_line : ℕ → Piece
mode_line zero = text "(DISABLED - no filtering)\n"
mode_line (suc zero) = text "(STRICT - only read/write/exit/sigreturn)\n"
mode_line (suc (suc zero)) = text "(FILTER - custom BPF filter)\n"
mode_line _ = text "(UNKNOWN)\n"

abbrev disabled_text : List Piece
disabled_text =
    text "\n╔══════════════════════════════════════════════════════╗\n"
    ∷ text "║  MODE 0: SECCOMP_MODE_DISABLED                       ║\n"
    ∷ text "╚══════════════════════════════════════════════════════╝\n"
    ∷ text "\nDescription:\n  - Default mode for all processes\n"
    ∷ text "  - No syscall filtering by SECCOMP\n  - Normal permission checks still apply:\n"
    ∷ text "    • UID/GID checks\n    • Capability checks\n"
    ∷ text "    • LSM (AppArmor/SELinux) checks\n"
    ∷ text "  - All syscalls allowed (if permissions permit)\n\n"
    ∷ []

abbrev strict_text : List Piece
strict_text =
    text "\n╔══════════════════════════════════════════════════════╗\n"
    ∷ text "║  MODE 1: SECCOMP_MODE_STRICT                         ║\n"
    ∷ text "╚══════════════════════════════════════════════════════╝\n"
    ∷ text "\nDescription:\n  - Most restrictive mode\n  - Only 4 syscalls allowed:\n"
    ∷ text "    • read()      - read from file descriptor\n"
    ∷ text "    • write()     - write to file descriptor\n    • exit()      - terminate process\n"
    ∷ text "    • sigreturn() - return from signal handler\n"
    ∷ text "  - ANY other syscall → immediate SIGKILL\n  - Cannot be undone once enabled\n"
    ∷ text "  - Useful for:\n    • Pure computation tasks\n"
    ∷ text "    • Processes that only read/write\n    • Maximum isolation\n\n"
    ∷ text "WARNING: About to enable STRICT mode\n"
    ∷ text "Process will be KILLED on first disallowed syscall!\n\n"
    ∷ []

abbrev pub filter_text : List Piece
filter_text =
    text "\n╔══════════════════════════════════════════════════════╗\n"
    ∷ text "║  MODE 2: SECCOMP_MODE_FILTER                         ║\n"
    ∷ text "╚══════════════════════════════════════════════════════╝\n"
    ∷ text "\nDescription:\n  - Most flexible mode\n"
    ∷ text "  - Uses BPF (Berkeley Packet Filter) program\n  - Decides action per syscall\n"
    ∷ text "  - Available actions:\n    • ALLOW  - Permit the syscall\n"
    ∷ text "    • ERRNO  - Deny with error code (e.g., EPERM)\n"
    ∷ text "    • TRAP   - Send SIGSYS signal\n    • TRACE  - Notify tracer (ptrace)\n"
    ∷ text "    • KILL   - Kill process immediately\n  - Used by:\n"
    ∷ text "    • Docker (blocks ~40 dangerous syscalls)\n    • Chrome (sandboxes renderers)\n"
    ∷ text "    • systemd (SystemCallFilter=)\n\n"
    ∷ text "Example: Allow only read/write/exit, deny others with EPERM\n\n"
    ∷ []

abbrev menu_text : List Piece
menu_text =
    text "\n╔══════════════════════════════════════════════════════╗\n"
    ∷ text "║          SECCOMP Modes Demonstration                 ║\n"
    ∷ text "╚══════════════════════════════════════════════════════╝\n"
    ∷ text "\nSECCOMP has 3 modes for syscall filtering:\n\n"
    ∷ text "  0. DISABLED - No filtering (default)\n  1. STRICT   - Only read/write/exit allowed\n"
    ∷ text "  2. FILTER   - Custom BPF filter\n\nChoose mode to demonstrate:\n"
    ∷ text "  1) MODE 0: DISABLED\n  2) MODE 1: STRICT (will kill process!)\n"
    ∷ text "  3) MODE 2: FILTER\n  4) Exit\n\nChoice: "
    ∷ []

-- A line by whether the call failed; `errno` is read when the line is printed.
abbrev verdict : {S : Type 0} → (good bad : String) → Result ℕ → M S (Unit {0})
verdict good bad (ok n) p = printf (text good ∷ text "\n" ∷ []) p
verdict good bad (err e) p = printf (text bad ∷ text " (" ∷ reason p.errno ∷ text ")\n" ∷ []) p

module _ (K : Seccomp) where
  unfoldable pub print_mode : M K.State (Unit {0})
  print_mode p =
      printf
        (text "Current SECCOMP mode: "
          ∷ decimal (K.get_mode p.kernel)
          ∷ text " "
          ∷ mode_line (K.get_mode p.kernel)
          ∷ [])
        p

  unfoldable pub test_syscalls : (phase : String) → M K.State (Unit {0})
  test_syscalls phase = do
    printf (text "\n--- Testing syscalls in " ∷ text phase ∷ text " ---\ngetpid(): " ∷ [])
    pid ← syscall K.call sys_getpid
    printf (number pid ∷ text " (SUCCESS)\ngetuid(): " ∷ [])
    uid ← syscall K.call sys_getuid
    printf (number uid ∷ text " (SUCCESS)\ngettimeofday(): " ∷ [])
    r ← syscall K.call sys_gettimeofday
    verdict "SUCCESS" "FAILED" r
    printf (text "sethostname(): " ∷ [])
    r ← syscall K.call sys_sethostname
    verdict "SUCCESS" "FAILED" r

  unfoldable pub demo_mode_disabled : M K.State (Unit {0})
  unfolding print_mode test_syscalls
  demo_mode_disabled = do printf disabled_text; print_mode; test_syscalls "DISABLED mode"

  unfoldable pub after_strict : Result ℕ → M K.State (Unit {0})
  after_strict (ok zero) = do
    write K.call (text "SECCOMP STRICT mode enabled\n\n")
    write K.call (text "Testing allowed syscall (write): SUCCESS\n")
    write K.call (text "\nAttempting getpid() - will KILL process...\n")
    r ← syscall K.call sys_getpid
    write K.call (text "ERROR: Should not reach here!\n")
  after_strict _ = pure tt

  unfoldable pub demo_mode_strict : M K.State (Unit {0})
  unfolding after_strict
  demo_mode_strict = do printf strict_text; r ← act K.set_strict; after_strict r

  -- The calls under the filter, once it is on.
  unfoldable pub test_filtered : M K.State (Unit {0})
  unfolding print_mode
  test_filtered = do
    printf (text "SECCOMP FILTER mode enabled\n\n" ∷ [])
    print_mode
    printf (text "\nTesting syscalls:\nwrite(): " ∷ [])
    r ← syscall K.call sys_write
    elim r [ ok _ ↦ printf (text "ALLOWED\n" ∷ []) | err e ↦ printf (text "BLOCKED\n" ∷ []) ]
    printf (text "getpid(): " ∷ [])
    r ← syscall K.call sys_getpid
    verdict "ALLOWED" "BLOCKED" r
    printf (text "gettimeofday(): " ∷ [])
    r ← syscall K.call sys_gettimeofday
    verdict "ALLOWED" "BLOCKED" r

  -- `if (prctl(...))` takes every value but 0 as a failure.
  abbrev if_zero : String → Result ℕ → M K.State (Unit {0}) → M K.State (Unit {0})
  if_zero name (ok zero) rest = rest
  if_zero name _ rest = perror name

  unfoldable pub demo_mode_filter : M K.State (Unit {0})
  unfolding test_filtered
  demo_mode_filter = do
    printf filter_text
    r ← act K.no_new_privs
    if_zero "prctl(NO_NEW_PRIVS)" r
        (do r ← act (K.set_filter filter); if_zero "prctl(SECCOMP)" r test_filtered)
