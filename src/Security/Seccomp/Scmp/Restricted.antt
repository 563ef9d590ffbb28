-- ===== src/Security/Seccomp/Scmp/Restricted.antt =====
-- seccomp_test.c behind its filter.
use linux_kernel_prog.Prelude.{ℕ, ◌≡◌, ◌≢◌, List, some, [], ◌∷◌}
use linux_kernel_prog.Kernel.{Result, ok, err, Errno}
use linux_kernel_prog.Security.Keys.{Piece, text, reason}
use linux_kernel_prog.Security.Seccomp.{
  Seccomp, returned, kills, sys_ptrace, sys_reboot, sys_sethostname,
}
use linux_kernel_prog.Security.Seccomp.Scmp.{Scmp, Action, act_kill, act_eperm, with_rules}

abbrev pub eperm : Errno
eperm = Errno.code 1

-- What is documented of libseccomp, and of a filter that is installed: a new filter has no rule; where
-- the addition of a rule for a call that has none succeeds, the call has that rule; it stays, and the
-- call then has the rule's outcome, while a call without a rule returns.
pub record Obeys (K : Seccomp) (L : Scmp K.State) (free : L.Ctx → ℕ → Type 0)
    (rule : L.Ctx → Action → ℕ → Type 0) (installed : L.Ctx → K.State → Type 0) : Type 0 where
  pub fresh : (c : L.Ctx) (nr : ℕ) → L.init ≡ some c → free c nr
  pub still_free :
      (c : L.Ctx) (b : Action) (nr other : ℕ)
      → nr ≢ other
      → free c nr
      → free (L.rule_add c b other).1 nr
  pub added :
      (c : L.Ctx) (a : Action) (nr : ℕ) {n : ℕ}
      → (L.rule_add c a nr).0 ≡ ok n
      → free c nr
      → rule (L.rule_add c a nr).1 a nr
  pub kept :
      (c : L.Ctx) (a b : Action) (nr other : ℕ)
      → nr ≢ other
      → rule c a nr
      → rule (L.rule_add c b other).1 a nr
  pub loaded :
      (c : L.Ctx) (s : K.State) {n : ℕ} → (L.load c s).0 ≡ ok n → installed c (L.load c s).1
  pub kills_call :
      (c : L.Ctx) (s : K.State) (nr : ℕ)
      → installed c s
      → rule c act_kill nr
      → (K.call nr s).0 ≡ kills
  pub denies_call :
      (c : L.Ctx) (s : K.State) (nr : ℕ)
      → installed c s
      → rule c act_eperm nr
      → (s' : K.State) × installed c s' × (K.call nr s ≡ (returned (err eperm), s'))
  pub passes_call :
      (c : L.Ctx) (s : K.State) (nr : ℕ)
      → installed c s
      → free c nr
      → (r : Result ℕ) × (s' : K.State) × installed c s' × (K.call nr s ≡ (returned r, s'))

-- What the blocked test and the last test print once the filter is in force.
abbrev pub last_lines : List Piece
last_lines =
    text "sethostname(): "
    ∷ text "BLOCKED ("
    ∷ reason eperm
    ∷ text ")\n"
    ∷ text "\nAttempting reboot() (will kill process):\n"
    ∷ text "reboot(): "
    ∷ []

-- A call that the filter has no rule for.
pub record IsOther (nr : ℕ) : Type 0 where
  pub not_reboot : nr ≢ sys_reboot
  pub not_sethostname : nr ≢ sys_sethostname
  pub not_ptrace : nr ≢ sys_ptrace

module _ (K : Seccomp) (L : Scmp K.State) {free : L.Ctx → ℕ → Type 0}
    {rule : L.Ctx → Action → ℕ → Type 0} {installed : L.Ctx → K.State → Type 0}
    (O : Obeys K L free rule installed) (ctx : L.Ctx) (made : L.init ≡ some ctx) where
  abbrev rules : L.Ctx
  rules = with_rules K L ctx

  abbrev pub killing : L.Ctx
  killing = (L.rule_add ctx act_kill sys_reboot).1
