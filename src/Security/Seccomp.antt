-- ===== src/Security/Seccomp.antt =====
-- security/part1/seccomp: what its programs share. The kernel is a record of operations on a state
-- of its own; a process prints, makes system calls, and may be killed by one or wait forever for
-- input that has ended.
pub mod Filter
pub mod Basic
pub mod Modes
pub mod Scmp
mod Examples
use Prim.Native.String.{String}
use linux_kernel_prog.Prelude.{
  ℕ, Option, none, some, List, [], ◌∷◌, ◌++◌, Bool, ◌==◌, if◌then◌else◌,
}
use linux_kernel_prog.Kernel.{Result, ok, err, Errno}
use linux_kernel_prog.Security.Keys.{Piece, text, decimal, reason, errno_after}

-- An instruction of a classic filter: a load of a word of `seccomp_data`, a test for equality with
-- what to skip if it holds and if not, and a return.
pub data Insn : Type 0 where
  load : (offset : ℕ) → Insn
  jump_eq : (k jt jf : ℕ) → Insn
  ret : ℕ → Insn

-- The numbers of the system calls on x86-64.
abbrev pub sys_read : ℕ
sys_read = 0

abbrev pub sys_write : ℕ
sys_write = 1

abbrev pub sys_rt_sigreturn : ℕ
sys_rt_sigreturn = 15

abbrev pub sys_getpid : ℕ
sys_getpid = 39

abbrev pub sys_exit : ℕ
sys_exit = 60

abbrev pub sys_gettimeofday : ℕ
sys_gettimeofday = 96

abbrev pub sys_ptrace : ℕ
sys_ptrace = 101

abbrev pub sys_getuid : ℕ
sys_getuid = 102

abbrev pub sys_reboot : ℕ
sys_reboot = 169

abbrev pub sys_sethostname : ℕ
sys_sethostname = 170

abbrev pub sys_exit_group : ℕ
sys_exit_group = 231

-- What a system call comes to.
pub data Answer : Type 0 where
  returned : Result ℕ → Answer
  kills : Answer

-- A number that a system call returned, printed.
abbrev pub number : Result ℕ → Piece
number (ok n) = decimal n
number (err e) = text "-1"

-- `prctl` for the mode, and all other system calls by their number.
pub record Seccomp : Type 1 where
  pub State : Type 0
  pub get_mode : State → ℕ
  pub set_strict : State → Result ℕ × State
  pub no_new_privs : State → Result ℕ × State
  pub set_filter : List Insn → State → Result ℕ × State
  pub call : (nr : ℕ) → State → Answer × State

-- The kernel's state, what the process has printed, and `errno`.
pub record Process (S : Type 0) : Type 0 where
  pub kernel : S
  pub out : List Piece
  pub errno : Errno

pub data Run (S A : Type 0) : Type 0 where
  ran : A → Process S → Run S A
  killed : Process S → Run S A

abbrev pub M : Type 0 → Type 0 → Type 0
M S A = Process S → Run S A

module _ {S : Type 0} where
  abbrev pub and_then : {A B : Type 0} → Run S A → (A → M S B) → Run S B
  and_then (ran a p) f = f a p
  and_then (killed p) f = killed p

  infixl 5 ◌>>=◌ ◌>>◌
  abbrev pub ◌>>=◌ : {A B : Type 0} → M S A → (A → M S B) → M S B
  ◌>>=◌ c f p = and_then (c p) f

  abbrev pub ◌>>◌ : {A B : Type 0} → M S A → M S B → M S B
  ◌>>◌ c d p = and_then (c p) (λ _. d)

  abbrev pub pure : {A : Type 0} → A → M S A
  pure a p = ran a p

  abbrev pub printf : List Piece → M S (Unit {0})
  printf ps p = ran tt (record p { out = p.out ++ ps })

  abbrev pub perror : String → M S (Unit {0})
  perror name p = ran tt (record p { out = p.out ++ text name ∷ reason p.errno ∷ [] })

  abbrev pub act : (S → Result ℕ × S) → M S (Result ℕ)
  act f p =
      ran (f p.kernel).0
        (record p { kernel = (f p.kernel).1; errno = errno_after (f p.kernel).0 p.errno })

  abbrev pub answered : Answer → Process S → Run S (Result ℕ)
  answered (returned r) p = ran r (record p { errno = errno_after r p.errno })
  answered kills p = killed p

  -- A system call by its number.
  abbrev pub syscall : (ℕ → S → Answer × S) → ℕ → M S (Result ℕ)
  syscall call nr p = answered (call nr p.kernel).0 (record p { kernel = (call nr p.kernel).1 })

  -- `write(STDOUT_FILENO, msg, strlen(msg))`: the text is out when the call returns no error.
  abbrev pub written : Piece → Result ℕ → M S (Unit {0})
  written msg (ok n) p = ran tt (record p { out = p.out ++ msg ∷ [] })
  written msg (err e) p = ran tt p

  abbrev pub write : (ℕ → S → Answer × S) → Piece → M S (Unit {0})
  write call msg = do r ← syscall call sys_write; written msg r
