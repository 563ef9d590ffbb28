-- ===== src/Security/Keys/KeyOps.antt =====
-- security/part2/key_ops.c. `garbage` is what stands in the local arrays before a call fills them.
pub mod Reading
pub mod Listing
pub mod Describing
use linux_kernel_prog.Prelude.{
  ℕ, zero, suc, ◌+◌, ◌*◌, ◌/◌, Option, none, some, List, [], ◌∷◌, ◌++◌, codes, ltb, if◌then◌else◌,
}
use linux_kernel_prog.Kernel.{Result, ok, err, Errno}
use linux_kernel_prog.Security.Strings.{text_at, fill, strtok}
use linux_kernel_prog.Security.Strings.Tokens.{strtok_calls}
use linux_kernel_prog.Security.Keys.{
  Serial, session_keyring, process_keyring, user_keyring, id, Keyutils, Piece, text, decimal,
  string, serial_piece, World, M, ◌>>=◌, ◌>>◌, pure, or_fault, printf, perror, act, ask, put_nul,
}

-- The array of serial numbers, four bytes each with the lowest first: the first so many of them.
-- `none` reads past the array's end.
unfoldable pub serials : (count : ℕ) → List ℕ → Option (List ℕ)
serials zero bs = some []
serials (suc n) (a ∷ b ∷ c ∷ d ∷ bs) = elim (serials n bs) [
  | none ↦ none
  | some ks ↦ some ((a + 256 * b + 65536 * c + 16777216 * d) ∷ ks)
]
serials (suc n) bs = none

abbrev pub key_lines : List ℕ → List Piece
key_lines [] = []
key_lines (k ∷ ks) = text "    Key ID: " ∷ decimal k ∷ text "\n" ∷ key_lines ks

-- The lines on the fields, if there are five.
unfoldable pub field_lines : List (Option (List ℕ)) → List Piece
field_lines (some type ∷ some uid ∷ some gid ∷ some perm ∷ some desc ∷ []) =
    text "  Type: "
    ∷ string type
    ∷ text "\n  Owner UID: "
    ∷ string uid
    ∷ text "\n  Owner GID: "
    ∷ string gid
    ∷ text "\n  Permissions: "
    ∷ string perm
    ∷ text " (hex)\n  Description: "
    ∷ string desc
    ∷ text "\n"
    ∷ []
field_lines _ = []

module _ (K : Keyutils) (garbage : ℕ → ℕ) where
  unfoldable pub create_key : (type desc payload : List ℕ) → Serial → M K.State (Result ℕ)
  create_key type desc payload keyring = do
    printf (
        text "Creating key:\n  Type: "
        ∷ string type
        ∷ text "\n  Description: "
        ∷ string desc
        ∷ text "\n  Data: "
        ∷ string payload
        ∷ text "\n  Keyring: "
        ∷ serial_piece keyring
        ∷ text "\n"
        ∷ [])
    key ← act (K.add_key type desc payload keyring)
    elim key [
      | err e ↦ do perror "add_key"; pure (err e)
      | ok k ↦ do printf (text "  Created key ID: " ∷ decimal k ∷ text "\n\n" ∷ []); pure (ok k)
    ]

  unfoldable pub read_key : ℕ → M K.State (Result ℕ)
  unfolding put_nul text_at fill
  read_key key = do
    printf (text "Reading key ID " ∷ decimal key ∷ text ":\n" ∷ [])
    r ← ask (K.read (id key) 4095)
    elim r [
      | err e ↦ do perror "keyctl_read"; pure (err e)
      | ok (ret, bs) ↦ do
        buffer ← or_fault (put_nul 4096 ret (fill garbage 4096 bs))
        shown ← or_fault (text_at buffer)
        printf (
            text "  Data: "
            ∷ string shown
            ∷ text "\n  Length: "
            ∷ decimal ret
            ∷ text " bytes\n\n"
            ∷ [])
        pure (ok 0)
    ]

  unfoldable pub search_key : Serial → (type desc : List ℕ) → M K.State (Result ℕ)
  search_key keyring type desc = do
    printf (
        text "Searching for key:\n  Keyring: "
        ∷ serial_piece keyring
        ∷ text "\n  Type: "
        ∷ string type
        ∷ text "\n  Description: "
        ∷ string desc
        ∷ text "\n"
        ∷ [])
    key ← ask (K.search keyring type desc)
    elim key [
      | err e ↦ do perror "keyctl_search"; pure (err e)
      | ok k ↦ do printf (text "  Found key ID: " ∷ decimal k ∷ text "\n\n" ∷ []); pure (ok k)
    ]

  unfoldable pub show_key_info : ℕ → M K.State (Unit {0})
  unfolding put_nul text_at fill strtok_calls field_lines
  show_key_info key = do
    printf (text "Key ID " ∷ decimal key ∷ text " information:\n" ∷ [])
    r ← ask (K.describe (id key) 4095)
    elim r [
      | err e ↦ perror "keyctl_describe"
      | ok (ret, bs) ↦ do
        buffer ← or_fault (put_nul 4096 ret (fill garbage 4096 bs))
        shown ← or_fault (text_at buffer)
        printf (text "  Description: " ∷ string shown ∷ text "\n" ∷ [])
        printf (field_lines (strtok_calls 59 5 shown))
        printf (text "\n" ∷ [])
    ]

  unfoldable pub list_keyring : Serial → (name : List ℕ) → M K.State (Unit {0})
  unfolding fill serials
  list_keyring keyring name = do
    printf (
        text "Listing keyring: "
        ∷ string name
        ∷ text " (ID: "
        ∷ serial_piece keyring
        ∷ text ")\n"
        ∷ [])
    r ← ask (K.read keyring 16384)
    elim r [
      | err e ↦ perror "keyctl_read keyring"
      | ok (ret, bs) ↦ do
        printf (text "  Contains " ∷ decimal (ret / 4) ∷ text " keys:\n" ∷ [])
        keys ← or_fault (serials (ret / 4) (fill garbage 16384 bs))
        printf (key_lines keys)
        printf (text "\n" ∷ [])
    ]

  -- `if (key > 0)`, for a key or a failed call.
  abbrev pub if_key : Result ℕ → (ℕ → M K.State (Unit {0})) → M K.State (Unit {0})
  if_key (err e) body = pure tt
  if_key (ok zero) body = pure tt
  if_key (ok (suc k)) body = body (suc k)

  unfoldable pub show_session_keyring : M K.State (Unit {0})
  unfolding create_key show_key_info read_key list_keyring search_key
  show_session_keyring = do
    printf (text "=== Session Keyring Demo ===\n\n" ∷ [])
    session ← act (K.get_keyring_id session_keyring)
    elim session [
      | err e ↦ perror "keyctl_get_keyring_ID"
      | ok s ↦ do
        printf (text "Session keyring ID: " ∷ decimal s ∷ text "\n\n" ∷ [])
        key ← create_key (codes "user") (codes "password") (codes "mysecret123") (id s)
        if_key key (λ k. do show_key_info k; read_key k; pure tt)
        key ← create_key (codes "user") (codes "token") (codes "token_abc_xyz") (id s)
        if_key key show_key_info
        list_keyring (id s) (codes "session")
        key ← search_key (id s) (codes "user") (codes "password")
        if_key key (λ k. do read_key k; pure tt)
    ]

  unfoldable pub show_process_keyring : M K.State (Unit {0})
  unfolding create_key show_key_info list_keyring
  show_process_keyring = do
    printf (text "=== Process Keyring Demo ===\n\n" ∷ [])
    process ← act (K.get_keyring_id process_keyring)
    elim process [
      | err e ↦ perror "keyctl_get_keyring_ID"
      | ok p ↦ do
        printf (text "Process keyring ID: " ∷ decimal p ∷ text "\n\n" ∷ [])
        key ← create_key (codes "user") (codes "process_key") (codes "process_data") (id p)
        if_key key (λ k. do show_key_info k; list_keyring (id p) (codes "process"))
    ]

  unfoldable pub show_user_keyring : M K.State (Unit {0})
  unfolding create_key show_key_info
  show_user_keyring = do
    printf (text "=== User Keyring Demo ===\n\n" ∷ [])
    user ← act (K.get_keyring_id user_keyring)
    elim user [
      | err e ↦ perror "keyctl_get_keyring_ID"
      | ok u ↦ do
        printf (text "User keyring ID: " ∷ decimal u ∷ text "\n\n" ∷ [])
        key ← create_key (codes "user") (codes "persistent_key") (codes "persistent_data") (id u)
        if_key key (λ k. do
          show_key_info k
          printf (text "This key persists across process lifetime\n\n" ∷ []))
    ]

  unfoldable pub main : (comm : List ℕ) (pid uid gid : ℕ) → M K.State ℕ
  unfolding show_session_keyring show_process_keyring show_user_keyring
  main comm pid uid gid = do
    printf (
        text "=====================================\n"
        ∷ text "  Key Operations Demonstration\n"
        ∷ text "=====================================\n\n"
        ∷ text "Process: "
        ∷ string comm
        ∷ text " (PID: "
        ∷ decimal pid
        ∷ text ")\nUID: "
        ∷ decimal uid
        ∷ text ", GID: "
        ∷ decimal gid
        ∷ text "\n\n"
        ∷ [])
    show_session_keyring
    show_process_keyring
    show_user_keyring
    printf (
        text "=== Cleanup ===\n\n"
        ∷ text "Keys created in this demo will expire or can be removed with:\n"
        ∷ text "  keyctl show      # List all keys\n"
        ∷ text "  keyctl revoke <key_id>\n"
        ∷ text "  keyctl unlink <key_id> @s\n\n"
        ∷ text "View kernel keyring info:\n"
        ∷ text "  cat /proc/keyring\n\n"
        ∷ [])
    pure 0
