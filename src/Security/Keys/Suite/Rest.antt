-- ===== src/Security/Keys/Suite/Rest.antt =====
-- security/part2/test_keyring.c from the timeout on, and the run of all tests.
use linux_kernel_prog.Prelude.{ℕ, zero, ◌+◌, some, List, [], ◌∷◌, ◌++◌, codes, ◌==◌, if◌then◌else◌}
use linux_kernel_prog.Kernel.{Result, ok, err}
use linux_kernel_prog.Security.Keys.{
  session_keyring, process_keyring, id, Keyutils, Piece, text, decimal, M, ◌>>=◌, ◌>>◌, pure,
  printf, act, ask,
}
use linux_kernel_prog.Security.Keys.Suite.{
  pass, fail, fail_errno, add_user, unlink_session, test_create_key, test_read_key, test_search_key,
  test_key_permissions,
}

module _ (K : Keyutils) where
  -- `sleep`, whose rest is not looked at.
  unfoldable pub wait : (seconds : ℕ) → M K.State (Unit {0})
  wait n w = some (tt, record w { keys = K.sleep n w.keys })

  unfoldable pub expiry_line : Result (ℕ × List ℕ) → Piece
  expiry_line (err e) = text "expired as expected\n"
  expiry_line (ok _) = text "key still readable (unexpected)\n"

  unfoldable pub judge_timeout : ℕ → Result ℕ → M K.State (Unit {0})
  unfolding pass fail_errno wait expiry_line unlink_session
  judge_timeout k (ok zero) = do
    pass
    printf (text "  Waiting for key to expire (2 seconds)... " ∷ [])
    wait 3
    r ← ask (K.read (id k) 256)
    printf (expiry_line r ∷ [])
  judge_timeout k _ = do fail_errno; unlink_session K k

  unfoldable pub test_key_timeout : M K.State (Unit {0})
  unfolding add_user judge_timeout fail
  test_key_timeout = do
    printf (text "Test: Set key timeout... " ∷ [])
    key ← add_user K (codes "timeout_test") (codes "data") session_keyring
    elim key [ err e ↦ fail [] | ok k ↦ do r ← act (K.set_timeout (id k) 2); judge_timeout k r ]

  unfoldable pub judge_revoked : Result (ℕ × List ℕ) → M K.State (Unit {0})
  unfolding pass fail
  judge_revoked (err e) = pass
  judge_revoked (ok _) = fail (text "    Revoked key is still readable\n" ∷ [])

  unfoldable pub judge_revoke : ℕ → Result ℕ → M K.State (Unit {0})
  unfolding judge_revoked fail_errno
  judge_revoke k (ok zero) = do r ← ask (K.read (id k) 256); judge_revoked r
  judge_revoke k _ = fail_errno

  unfoldable pub test_key_revoke : M K.State (Unit {0})
  unfolding add_user judge_revoke unlink_session fail
  test_key_revoke = do
    printf (text "Test: Revoke key... " ∷ [])
    key ← add_user K (codes "revoke_test") (codes "data") session_keyring
    elim key [
      | err e ↦ fail []
      | ok k ↦ do r ← act (K.revoke (id k)); judge_revoke k r; unlink_session K k
    ]

  unfoldable pub judge_unlink : Result ℕ → M K.State (Unit {0})
  unfolding pass fail
  judge_unlink (ok zero) = pass
  judge_unlink _ = fail (text "    Failed to unlink\n" ∷ [])

  unfoldable pub judge_link : (k process : ℕ) → Result ℕ → M K.State (Unit {0})
  unfolding judge_unlink fail
  judge_link k process (ok zero) = do r ← act (K.unlink (id k) (id process)); judge_unlink r
  judge_link k process _ = fail (text "    Failed to link\n" ∷ [])

  unfoldable pub link_in_both : Result ℕ → Result ℕ → M K.State (Unit {0})
  unfolding add_user judge_link fail
  link_in_both (ok session) (ok process) = do
    key ← add_user K (codes "link_test") (codes "data") (id session)
    elim key [
      | err e ↦ fail []
      | ok k ↦ do
        r ← act (K.link (id k) (id process))
        judge_link k process r
        r ← act (K.unlink (id k) (id session))
        pure tt
    ]
  link_in_both _ _ = fail []

  unfoldable pub test_key_linking : M K.State (Unit {0})
  unfolding link_in_both
  test_key_linking = do
    printf (text "Test: Link key between keyrings... " ∷ [])
    session ← act (K.get_keyring_id session_keyring)
    process ← act (K.get_keyring_id process_keyring)
    link_in_both session process

  unfoldable pub judge_empty : Result (ℕ × List ℕ) → M K.State (Unit {0})
  unfolding pass fail
  judge_empty (ok (zero, bs)) = pass
  judge_empty _ = fail (text "    Keyring not empty after clear\n" ∷ [])

  unfoldable pub judge_clear : ℕ → Result ℕ → M K.State (Unit {0})
  unfolding judge_empty fail_errno
  judge_clear process (ok zero) = do r ← ask (K.read (id process) 16384); judge_empty r
  judge_clear process _ = fail_errno

  unfoldable pub clear_both : ℕ → Result ℕ → Result ℕ → M K.State (Unit {0})
  unfolding judge_clear fail
  clear_both process (ok key1) (ok key2) = do r ← act (K.clear (id process)); judge_clear process r
  clear_both process _ _ = fail []

  unfoldable pub test_keyring_clear : M K.State (Unit {0})
  unfolding add_user clear_both fail
  test_keyring_clear = do
    printf (text "Test: Clear keyring... " ∷ [])
    process ← act (K.get_keyring_id process_keyring)
    elim process [
      | err e ↦ fail []
      | ok p ↦ do
        key1 ← add_user K (codes "clear_test1") (codes "data") (id p)
        key2 ← add_user K (codes "clear_test2") (codes "data") (id p)
        clear_both p key1 key2
    ]

  unfoldable pub report : M K.State ℕ
  report w = some (
    (if w.failed == 0 then 0 else 1),
    record w {
      out =
          w.out
          ++ text "\n=========================================\nTest Results:\n"
            ∷ text "  Passed: "
            ∷ decimal w.passed
            ∷ text "\n  Failed: "
            ∷ decimal w.failed
            ∷ text "\n  Total:  "
            ∷ decimal (w.passed + w.failed)
            ∷ text "\n=========================================\n\n"
            ∷ (if w.failed == 0
                then text "All tests passed!\n\n"
                else text "Some tests failed.\n\n")
            ∷ [];
    },
  )

  unfoldable pub main : (garbage : ℕ → ℕ) → M K.State ℕ
  unfolding test_create_key test_read_key test_search_key test_key_permissions test_key_timeout
      test_key_revoke test_key_linking test_keyring_clear report
  main garbage = do
    printf (
        text "=========================================\n"
        ∷ text "   Keyring Functionality Test Suite\n"
        ∷ text "=========================================\n\nRunning tests...\n\n"
        ∷ [])
    test_create_key K
    test_read_key K garbage
    test_search_key K
    test_key_permissions K
    test_key_timeout
    test_key_revoke
    test_key_linking
    test_keyring_clear
    report
