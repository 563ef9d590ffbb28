-- ===== src/Security/Keyring.antt =====
-- security/part2/keyring.c: the file /proc/keyring. `from_kuid` and `from_kgid` are parameters.
use linux_kernel_prog.Prelude.{
  ℕ, Option, none, some, List, [], ◌∷◌, ◌++◌, Bool, true, false, ◌==◌, if◌then◌else◌,
}
use linux_kernel_prog.Kernel.{Result, ok, err, Errno}
use linux_kernel_prog.Security.Keys.{Piece, text, decimal, string}

-- The fields of the task and of its credentials that are shown. A keyring is given by its serial
-- number.
pub record Cred : Type 0 where
  pub uid : ℕ
  pub gid : ℕ
  pub thread_keyring : Option ℕ
  pub process_keyring : Option ℕ
  pub session_keyring : Option ℕ

pub record Task : Type 0 where
  pub comm : List ℕ
  pub pid : ℕ
  pub cred : Cred

-- Whether a keyring is there, and its number if it is.
unfoldable pub keyring_lines : Option ℕ → List Piece
keyring_lines none = text "Not allocated" ∷ []
keyring_lines (some serial) = text "Present" ∷ text " (ID: " ∷ decimal serial ∷ text ")" ∷ []

abbrev command_lines : List Piece
command_lines =
    text "=== Userspace Commands ===\nView all keyrings:\n  keyctl show\n\n"
    ∷ text "Add a key to session keyring:\n  keyctl add user mykey \"secret_data\" @s\n\n"
    ∷ text "Search for a key:\n  keyctl search @s user mykey\n"
    ∷ []

module _ (from_kuid from_kgid : ℕ → ℕ) where
  -- What `proc_show` appends to the file's text.
  unfoldable pub proc_show : (enabled : ℕ) (current : Task) (m : List Piece) → Result ℕ × List Piece
  unfolding keyring_lines
  proc_show enabled current m = if enabled == 0 then (ok 0, m) else (
    ok 0,
    m
        ++ text "Process: "
          ∷ string current.comm
          ∷ text " (PID: "
          ∷ decimal current.pid
          ∷ text ")\nUID: "
          ∷ decimal (from_kuid current.cred.uid)
          ∷ text ", GID: "
          ∷ decimal (from_kgid current.cred.gid)
          ∷ text "\n\n"
          ∷ text "Thread Keyring:  "
          ∷ (keyring_lines current.cred.thread_keyring
              ++ text "\n"
                ∷ text "Process Keyring: "
                ∷ (keyring_lines current.cred.process_keyring
                    ++ text "\n"
                      ∷ text "Session Keyring: "
                      ∷ (keyring_lines current.cred.session_keyring
                          ++ text "\n\n" ∷ command_lines))),
  )

  -- `single_open(file, proc_show, NULL)`: a reader gets what `proc_show` prints.
  unfoldable pub proc_open : (enabled : ℕ) (current : Task) → Result ℕ × List Piece
  unfolding proc_show
  proc_open enabled current = proc_show enabled current []

-- Whether /proc/keyring is there; the argument is what `proc_create` hands back.
unfoldable pub keyring_init : (created : Bool) → Result ℕ × Bool
keyring_init true = (ok 0, true)
keyring_init false = (err Errno.enomem, false)

unfoldable pub keyring_exit : (proc_entry : Bool) → Bool
keyring_exit true = false
keyring_exit false = false
