-- ===== src/Security/Seccomp/Basic/Killed.antt =====
-- The end of seccomp_basic.c.
use linux_kernel_prog.Prelude.{ℕ, ◌≡◌, ◌≢◌, arith, refl, [], ◌∷◌, ◌++◌}
use linux_kernel_prog.Kernel.{ok}
use linux_kernel_prog.Security.Keys.{text}
use linux_kernel_prog.Security.Seccomp.{
  Seccomp, Process, killed, returned, kills, sys_read, sys_write, sys_exit, sys_rt_sigreturn,
  sys_getpid, ◌>>=◌, ◌>>◌,
}
use linux_kernel_prog.Security.Seccomp.Basic.{after_strict}

-- What is documented of the strict mode: four system calls, and the signal for any other. A write
-- to the terminal returns what it has written.
pub record IsStrict (K : Seccomp) (strict : K.State → Type 0) : Type 0 where
  pub entered : (s : K.State) {n : ℕ} → (K.set_strict s).0 ≡ ok n → strict (K.set_strict s).1
  pub others :
      (s : K.State) (nr : ℕ)
      → strict s
      → nr ≢ sys_read
      → nr ≢ sys_write
      → nr ≢ sys_exit
      → nr ≢ sys_rt_sigreturn
      → (K.call nr s).0 ≡ kills
  pub writes :
      (s : K.State)
      → strict s
      → (n : ℕ) × (s' : K.State) × strict s' × (K.call sys_write s ≡ (returned (ok n), s'))

module _ (K : Seccomp) {strict : K.State → Type 0} (L : IsStrict K strict) where
  -- Once the strict mode is on, seccomp_basic.c prints its two lines and is killed at getpid(): it
  -- never comes to its last line nor to an exit status.
  pub after_strict-killed :
      (p : Process K.State)
      → strict p.kernel
      → (q : Process K.State) × (after_strict K (ok 0) p ≡ killed q)
        × (q.out
            ≡ (p.out ++ text "SECCOMP enabled successfully\n\n" ∷ [])
              ++ text "Attempting getpid()...\n" ∷ [])
  unfolding after_strict
  after_strict-killed p on =
      let (n₁, s₁, on₁, e₁) = L.writes p.kernel on in
      let (n₂, s₂, on₂, e₂) = L.writes s₁ on₁ in
      let dead : (K.call sys_getpid s₂).0 ≡ kills =
        L.others s₂ sys_getpid on₂ (λ e. absurd (omega (arith, e))) (λ e. absurd (omega (arith, e)))
          (λ e. absurd (omega (arith, e))) (λ e. absurd (omega (arith, e))) in
      rw (e₁, ◌>>◌, e₂, ◌>>=◌, dead) (_, refl, refl)
