-- ===== src/Security/Seccomp/Modes/Refused.antt =====
-- The demonstration of the filter mode never installs its filter.
use linux_kernel_prog.Prelude.{◌≡◌, refl, false, List, [], ◌∷◌, ◌++◌, length}
use linux_kernel_prog.Kernel.{ok, err, Errno}
use linux_kernel_prog.Security.Keys.{text, reason}
use linux_kernel_prog.Security.Seccomp.{Seccomp, Insn, Process, ran}
use linux_kernel_prog.Security.Seccomp.Filter.{filter, jumps_inside, filter-outside}
use linux_kernel_prog.Security.Seccomp.Modes.{demo_mode_filter, filter_text}

-- What is documented of the call: a program with a jump out of itself is not valid.
pub record IsChecking (K : Seccomp) : Type 0 where
  pub refuses :
      (prog : List Insn) (s : K.State)
      → jumps_inside (length prog) 0 prog ≡ false
      → K.set_filter prog s ≡ (err Errno.einval, s)

-- If the kernel checks a filter's jumps as documented, `demo_mode_filter` reports the error EINVAL
-- of its last prctl and returns: the filter is not installed, and none of the calls that it would
-- restrict is tried.
pub demo_mode_filter-refused :
    (K : Seccomp)
    → IsChecking K
    → (p : Process K.State) → (K.no_new_privs p.kernel).0 ≡ ok 0
    → demo_mode_filter K p
      ≡ ran tt (record p {
        kernel = (K.no_new_privs p.kernel).1;
        out = (p.out ++ filter_text) ++ text "prctl(SECCOMP)" ∷ reason Errno.einval ∷ [];
        errno = Errno.einval;
      })
unfolding demo_mode_filter
demo_mode_filter-refused K L p h =
    rw (h, L.refuses filter (K.no_new_privs p.kernel).1 filter-outside) refl
