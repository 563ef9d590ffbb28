-- ===== src/Kernel.antt =====
-- What all the modules of the repository take from the kernel: error numbers as values.
use linux_kernel_prog.Prelude.{ℕ, ◌≡◌, refl, ◌⊎◌, inl, inr, Bool, true, false}

-- The codes the repository names, and those that a callee outside of it hands back.
pub data Errno : Type 0 where
  einval : Errno
  efault : Errno
  enomem : Errno
  esrch : Errno
  code : ℕ → Errno

-- A C `int` or `ssize_t` that is negative exactly on an error.
pub data Result (A : Type 0) : Type 0 where
  ok : A → Result A
  err : Errno → Result A

abbrev pub is_ok : {A : Type 0} → Result A → Bool
is_ok (ok _) = true
is_ok (err _) = false

-- To split on a computed result and keep the equation.
pub Result-cases :
    {A : Type 0} (r : Result A) → ((a : A) × (r ≡ ok a)) ⊎ ((e : Errno) × (r ≡ err e))
Result-cases (ok a) = inl (a, refl)
Result-cases (err e) = inr (e, refl)
