-- ===== src/Security/Keys/Keyctl/Program.antt =====
-- security/part2/keyctl.c: revocation, invalidation, the listing and `main`. `garbage` is what stands
-- in the local arrays before a call fills them.
use linux_kernel_prog.Prelude.{ℕ, zero, suc, ◌+◌, ◌/◌, List, [], ◌∷◌, codes}
use linux_kernel_prog.Kernel.{Result, ok, err}
use linux_kernel_prog.Security.Strings.{text_at, fill}
use linux_kernel_prog.Security.Keys.{
  Serial, session_keyring, id, Keyutils, text, decimal, string, serial_piece, M, ◌>>=◌, ◌>>◌, pure,
  or_fault, printf, perror, act, ask, put_nul,
}
use linux_kernel_prog.Security.Keys.KeyOps.{serials}
use linux_kernel_prog.Security.Keys.Keyctl.{
  add_to_session, show_key_timeout, show_key_permissions, show_key_ownership, show_key_linking,
}

-- A callee that writes the front of an array and leaves the rest.
abbrev pub copy_in : (array bs : List ℕ) → List ℕ
copy_in [] bs = []
copy_in (a ∷ rest) [] = a ∷ rest
copy_in (a ∷ rest) (b ∷ bs) = b ∷ copy_in rest bs

module _ (K : Keyutils) (garbage : ℕ → ℕ) where
  -- The payload as a string, which the read does not terminate, unless nothing was read.
  unfoldable pub print_payload : Result (ℕ × List ℕ) → M K.State (Unit {0})
  unfolding text_at fill
  print_payload (err e) = pure tt
  print_payload (ok (zero, bs)) = pure tt
  print_payload (ok (suc n, bs)) = do
    shown ← or_fault (text_at (fill garbage 256 bs))
    printf (text "Key data before revocation: " ∷ string shown ∷ text "\n" ∷ [])

  unfoldable pub report_refusal : Result (ℕ × List ℕ) → M K.State (Unit {0})
  report_refusal (err e) = printf (text "Cannot read revoked key (expected)\n" ∷ [])
  report_refusal (ok _) = pure tt

  unfoldable pub show_key_revocation : M K.State (Unit {0})
  unfolding add_to_session print_payload report_refusal
  show_key_revocation = do
    printf (text "=== Key Revocation Demo ===\n\n" ∷ [])
    add_to_session K "revoke_key" "will_be_revoked" 15 "Created key ID: " (λ k. do
      r ← ask (K.read (id k) 256)
      print_payload r
      r ← act (K.revoke (id k))
      elim r [
        | err e ↦ perror "keyctl_revoke"
        | ok _ ↦ do
          printf (text "Revoked key " ∷ decimal k ∷ text "\n" ∷ [])
          r ← ask (K.read (id k) 256)
          report_refusal r
          printf (text "Revoked keys cannot be accessed\n\n" ∷ [])
      ])

  unfoldable pub show_key_invalidate : M K.State (Unit {0})
  unfolding add_to_session
  show_key_invalidate = do
    printf (text "=== Key Invalidation Demo ===\n\n" ∷ [])
    add_to_session K "invalid_key" "will_be_invalid" 15 "Created key ID: " (λ k. do
      r ← act (K.invalidate (id k))
      elim r [
        | err e ↦ do
          perror "keyctl_invalidate"
          printf (text "Note: invalidate may not be available on all systems\n" ∷ [])
        | ok _ ↦ printf (
            text "Invalidated key "
            ∷ decimal k
            ∷ text "\nInvalidation is similar to revocation but more thorough\n"
            ∷ [])
      ]
      printf (text "\n" ∷ []))

  -- The loop's body after `keyctl_describe`: the line and what `desc` holds then.
  unfoldable pub describe_line :
      (i key : ℕ) (desc : List ℕ) → Result (ℕ × List ℕ) → M K.State (List ℕ)
  unfolding put_nul text_at
  describe_line i key desc (err e) = pure desc
  describe_line i key desc (ok (zero, bs)) = pure (copy_in desc bs)
  describe_line i key desc (ok (suc n, bs)) = do
    desc ← or_fault (put_nul 256 (suc n) (copy_in desc bs))
    shown ← or_fault (text_at desc)
    printf (
        text "    ["
        ∷ decimal (i + 1)
        ∷ text "] ID:"
        ∷ decimal key
        ∷ text " - "
        ∷ string shown
        ∷ text "\n"
        ∷ [])
    pure desc

  unfoldable pub describe_keys : (i : ℕ) (keys desc : List ℕ) → M K.State (Unit {0})
  unfolding describe_line
  describe_keys i [] desc = pure tt
  describe_keys i (key ∷ keys) desc = do
    r ← ask (K.describe (id key) 256)
    desc ← describe_line i key desc r
    describe_keys (suc i) keys desc

  unfoldable pub show_keyring_contents : Serial → (name : List ℕ) → M K.State (Unit {0})
  unfolding fill serials describe_keys
  show_keyring_contents keyring name = do
    printf (
        text "Contents of "
        ∷ string name
        ∷ text " keyring (ID: "
        ∷ serial_piece keyring
        ∷ text "):\n"
        ∷ [])
    r ← ask (K.read keyring 16384)
    elim r [
      | err e ↦ perror "keyctl_read"
      | ok (ret, bs) ↦ do
        printf (text "  Total keys: " ∷ decimal (ret / 4) ∷ text "\n" ∷ [])
        keys ← or_fault (serials (ret / 4) (fill garbage 16384 bs))
        describe_keys 0 keys (fill garbage 256 [])
        printf (text "\n" ∷ [])
    ]

  unfoldable pub main : (comm : List ℕ) (pid uid gid : ℕ) → M K.State ℕ
  unfolding show_key_timeout show_key_permissions show_key_ownership show_key_linking
      show_key_revocation show_key_invalidate show_keyring_contents
  main comm pid uid gid = do
    printf (
        text "========================================\n"
        ∷ text "  Advanced Keyctl Operations Demo\n"
        ∷ text "========================================\n\n"
        ∷ text "Process: "
        ∷ string comm
        ∷ text " (PID: "
        ∷ decimal pid
        ∷ text ")\nUID: "
        ∷ decimal uid
        ∷ text ", GID: "
        ∷ decimal gid
        ∷ text "\n\n"
        ∷ [])
    session ← act (K.get_keyring_id session_keyring)
    elim session [
      | err e ↦ do perror "keyctl_get_keyring_ID"; pure 1
      | ok s ↦ do
        show_key_timeout K
        show_key_permissions K
        show_key_ownership K uid gid
        show_key_linking K
        show_key_revocation
        show_key_invalidate
        printf (text "=== Final Keyring State ===\n\n" ∷ [])
        show_keyring_contents (id s) (codes "session")
        printf (
            text "=== Cleanup Commands ===\n\n"
            ∷ text "View all keys:\n  keyctl show\n\n"
            ∷ text "Clear session keyring:\n  keyctl clear @s\n\n"
            ∷ text "Remove specific key:\n  keyctl unlink <key_id> @s\n\n"
            ∷ [])
        pure 0
    ]
