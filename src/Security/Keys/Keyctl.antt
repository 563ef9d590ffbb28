-- ===== src/Security/Keys/Keyctl.antt =====
-- security/part2/keyctl.c. Program has the parts that read.
pub mod Program
pub mod Faults
use Prim.Native.String.{String}
use Prim.Native.Nat.{bit_or}
use linux_kernel_prog.Prelude.{
  ℕ, zero, suc, ◌+◌, ◌/◌, Option, none, some, List, [], ◌∷◌, ◌++◌, codes, take,
}
use linux_kernel_prog.Kernel.{Result, ok, err}
use linux_kernel_prog.Security.Strings.{text_at, fill}
use linux_kernel_prog.Security.Keys.{
  Serial, session_keyring, process_keyring, id, Keyutils, Piece, text, decimal, hex, string,
  serial_piece, World, M, ◌>>=◌, ◌>>◌, pure, or_fault, printf, perror, act, ask, put_nul,
}
use linux_kernel_prog.Security.Keys.KeyOps.{serials}

-- The bits of `key_perm_t` that are used, from keyutils.h.
abbrev pub pos_view : ℕ
pos_view = 16777216

abbrev pub pos_read : ℕ
pos_read = 33554432

abbrev pub pos_write : ℕ
pos_write = 67108864

abbrev pub pos_search : ℕ
pos_search = 134217728

abbrev pub pos_link : ℕ
pos_link = 268435456

abbrev pub pos_setattr : ℕ
pos_setattr = 536870912

abbrev pub pos_all : ℕ
pos_all = 1056964608

abbrev pub usr_view : ℕ
usr_view = 65536

abbrev pub usr_read : ℕ
usr_read = 131072

infixl 45 ◌||◌
abbrev ◌||◌ : ℕ → ℕ → ℕ
a || b = bit_or a b

abbrev pub possessor_only : ℕ
possessor_only = pos_view || pos_read || pos_write || pos_search || pos_link || pos_setattr

abbrev pub more_open : ℕ
more_open = pos_all || usr_view || usr_read

module _ (K : Keyutils) where
  -- What each part begins with: a key added to the session keyring, unless that fails.
  unfoldable pub add_to_session :
      (desc payload : String) (size : ℕ) (made : String)
      → (ℕ → M K.State (Unit {0}))
      → M K.State (Unit {0})
  add_to_session desc payload size made body = do
    key ← act (K.add_key (codes "user") (codes desc) (take size (codes payload)) session_keyring)
    elim key [
      | err e ↦ perror "add_key"
      | ok k ↦ do printf (text made ∷ decimal k ∷ text "\n" ∷ []); body k
    ]

  unfoldable pub show_key_timeout : M K.State (Unit {0})
  unfolding add_to_session
  show_key_timeout = do
    printf (text "=== Key Timeout Demo ===\n\n" ∷ [])
    add_to_session "temp_key" "temporary_data" 14 "Created temporary key ID: " (λ k. do
      r ← act (K.set_timeout (id k) 10)
      elim r [
        | err e ↦ perror "keyctl_set_timeout"
        | ok _ ↦ printf (
            text "Set timeout: "
            ∷ decimal 10
            ∷ text " seconds\n"
            ∷ text "Key will expire automatically\n"
            ∷ text "After expiration, key will be revoked\n\n"
            ∷ [])
      ])

  unfoldable pub show_key_permissions : M K.State (Unit {0})
  unfolding add_to_session
  show_key_permissions = do
    printf (text "=== Key Permissions Demo ===\n\n" ∷ [])
    add_to_session "perm_key" "permission_test" 15 "Created key ID: " (λ k. do
      r ← act (K.setperm (id k) possessor_only)
      elim r [
        | err e ↦ perror "keyctl_setperm"
        | ok _ ↦ do
          printf (
              text "Set permissions: 0x"
              ∷ hex possessor_only
              ∷ text " (possessor only)\n"
              ∷ text "  Possessor: VIEW READ WRITE SEARCH LINK SETATTR\n  User: none\n"
              ∷ text "  Group: none\n  Other: none\n\n"
              ∷ [])
          r ← act (K.setperm (id k) more_open)
          elim r [
            | err e ↦ perror "keyctl_setperm"
            | ok _ ↦ printf (
                text "Updated permissions: 0x"
                ∷ hex more_open
                ∷ text "\n  Possessor: all permissions\n  User: VIEW READ\n\n"
                ∷ [])
          ]
      ])

  unfoldable pub show_key_ownership : (uid gid : ℕ) → M K.State (Unit {0})
  unfolding add_to_session
  show_key_ownership uid gid = do
    printf (text "=== Key Ownership Demo ===\n\n" ∷ [])
    add_to_session "owner_key" "ownership_test" 14 "Created key ID: " (λ k. do
      printf (text "Current UID: " ∷ decimal uid ∷ text ", GID: " ∷ decimal gid ∷ text "\n" ∷ [])
      r ← act (K.chown (id k) uid gid)
      elim r [
        | err e ↦ printf (text "Cannot change ownership (not root)\n" ∷ [])
        | ok _ ↦ printf (
            text "Successfully set ownership to UID:"
            ∷ decimal uid
            ∷ text ", GID:"
            ∷ decimal gid
            ∷ text "\n"
            ∷ [])
      ]
      printf (text "\n" ∷ []))

  -- The part of `show_key_linking` after both keyrings are found.
  link_and_unlink : (session process : ℕ) → M K.State (Unit {0})
  link_and_unlink session process = do
    printf (
        text "Session keyring: "
        ∷ decimal session
        ∷ text "\nProcess keyring: "
        ∷ decimal process
        ∷ text "\n\n"
        ∷ [])
    key ← act (K.add_key (codes "user") (codes "linked_key") (codes "link_test") (id session))
    elim key [
      | err e ↦ perror "add_key"
      | ok k ↦ do
        printf (
            text "Created key "
            ∷ decimal k
            ∷ text " in session keyring\n"
            ∷ text "Reference count: 1 (session keyring)\n\n"
            ∷ [])
        r ← act (K.link (id k) (id process))
        elim r [
          | err e ↦ perror "keyctl_link"
          | ok _ ↦ do
            printf (
                text "Linked key "
                ∷ decimal k
                ∷ text " to process keyring\n"
                ∷ text "Reference count: 2 (session + process keyrings)\n"
                ∷ text "Key is now accessible from both keyrings\n\n"
                ∷ [])
            r ← act (K.unlink (id k) (id process))
            elim r [
              | err e ↦ perror "keyctl_unlink"
              | ok _ ↦ printf (
                  text "Unlinked key "
                  ∷ decimal k
                  ∷ text " from process keyring\n"
                  ∷ text "Reference count: 1 (session keyring only)\n"
                  ∷ text "Key remains in session keyring\n\n"
                  ∷ [])
            ]
        ]
    ]

  both_keyrings : Result ℕ → Result ℕ → M K.State (Unit {0})
  unfolding link_and_unlink
  both_keyrings (ok session) (ok process) = link_and_unlink session process
  both_keyrings _ _ = perror "keyctl_get_keyring_ID"

  unfoldable pub show_key_linking : M K.State (Unit {0})
  unfolding both_keyrings
  show_key_linking = do
    printf (text "=== Key Linking Demo ===\n\n" ∷ [])
    session ← act (K.get_keyring_id session_keyring)
    process ← act (K.get_keyring_id process_keyring)
    both_keyrings session process
