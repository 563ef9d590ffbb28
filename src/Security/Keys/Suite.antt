-- ===== src/Security/Keys/Suite.antt =====
-- security/part2/test_keyring.c. `garbage` is what stands in the local arrays before a call fills
-- them.
pub mod Rest
pub mod Tally
pub mod Verdict
use Prim.Native.String.{String}
use linux_kernel_prog.Prelude.{
  ℕ, zero, suc, ◌+◌, Option, none, some, List, [], ◌∷◌, ◌++◌, Bool, true, false, codes, ◌==◌, ◌&&◌,
  length, if◌then◌else◌,
}
use linux_kernel_prog.Kernel.{Result, ok, err}
use linux_kernel_prog.Security.Strings.{text_at, fill}
use linux_kernel_prog.Security.Keys.{
  Serial, session_keyring, id, Keyutils, Piece, text, decimal, minus_one, string, reason, World, M,
  ◌>>=◌, ◌>>◌, pure, or_fault, printf, act, ask, put_nul,
}
use linux_kernel_prog.Security.Keys.Keyctl.{pos_all}

-- `strcmp(a, b) == 0`
abbrev pub same_text : List ℕ → List ℕ → Bool
same_text [] [] = true
same_text (a ∷ rest) (b ∷ bs) = (a == b) && same_text rest bs
same_text _ _ = false

-- `found == key`, and a serial number as it is printed.
abbrev pub is_key : Result ℕ → ℕ → Bool
is_key (ok n) k = n == k
is_key (err _) k = false

abbrev pub result_piece : Result ℕ → Piece
result_piece (ok n) = decimal n
result_piece (err _) = minus_one

module _ {S : Type 0} where
  -- TEST_PASS and the counter, TEST_FAIL and the counter.
  unfoldable pub pass : M S (Unit {0})
  pass w = some (tt, record w { out = w.out ++ text "  [PASS]\n" ∷ []; passed = w.passed + 1 })

  unfoldable pub fail : List Piece → M S (Unit {0})
  fail why w = some (tt, record w { out = w.out ++ text "  [FAIL]\n" ∷ why; failed = w.failed + 1 })

  -- A failure that prints `strerror(errno)`.
  unfoldable pub fail_errno : M S (Unit {0})
  fail_errno w = some (
    tt,
    record w {
      out = w.out ++ text "  [FAIL]\n" ∷ text "    Error: " ∷ reason w.errno ∷ text "\n" ∷ [];
      failed = w.failed + 1;
    },
  )

module _ (K : Keyutils) where
  add_user : (desc payload : List ℕ) → Serial → M K.State (Result ℕ)
  add_user desc payload ring = act (K.add_key (codes "user") desc payload ring)

  unlink_session : ℕ → M K.State (Unit {0})
  unlink_session k = do r ← act (K.unlink (id k) session_keyring); pure tt

  judge_created : Result ℕ → M K.State (Unit {0})
  unfolding pass fail_errno unlink_session
  judge_created (err e) = fail_errno
  judge_created (ok zero) = fail_errno
  judge_created (ok (suc k)) = do pass; unlink_session (suc k)

  unfoldable pub test_create_key : M K.State (Unit {0})
  unfolding add_user judge_created
  test_create_key = do
    printf (text "Test: Create user key... " ∷ [])
    key ← add_user (codes "test_key") (codes "test_data") session_keyring
    judge_created key

  judge_read : (garbage : ℕ → ℕ) → Result (ℕ × List ℕ) → M K.State (Unit {0})
  unfolding pass fail fail_errno put_nul text_at fill
  judge_read garbage (err e) = fail_errno
  judge_read garbage (ok (zero, bs)) = fail_errno
  judge_read garbage (ok (suc n, bs)) = do
    buffer ← or_fault (put_nul 256 (suc n) (fill garbage 256 bs))
    shown ← or_fault (text_at buffer)
    if same_text shown (codes "read_test_data")
        then pass
        else fail (
            text "    Data mismatch: expected '"
            ∷ string (codes "read_test_data")
            ∷ text "', got '"
            ∷ string shown
            ∷ text "'\n"
            ∷ [])

  unfoldable pub test_read_key : (garbage : ℕ → ℕ) → M K.State (Unit {0})
  unfolding add_user judge_read unlink_session fail
  test_read_key garbage = do
    printf (text "Test: Read key data... " ∷ [])
    key ← add_user (codes "read_test") (codes "read_test_data") session_keyring
    elim key [
      | err e ↦ fail []
      | ok k ↦ do r ← ask (K.read (id k) 256); judge_read garbage r; unlink_session k
    ]

  unfoldable pub test_search_key : M K.State (Unit {0})
  unfolding add_user unlink_session pass fail
  test_search_key = do
    printf (text "Test: Search for key... " ∷ [])
    key ← add_user (codes "search_test") (codes "data") session_keyring
    elim key [
      | err e ↦ fail []
      | ok k ↦ do
        found ← ask (K.search session_keyring (codes "user") (codes "search_test"))
        if is_key found k
            then pass
            else fail (
                text "    Found wrong key: expected "
                ∷ decimal k
                ∷ text ", got "
                ∷ result_piece found
                ∷ text "\n"
                ∷ [])
        unlink_session k
    ]

  -- A call that returns 0, or not.
  pass_if_zero : Result ℕ → M K.State (Unit {0})
  unfolding pass fail_errno
  pass_if_zero (ok zero) = pass
  pass_if_zero _ = fail_errno

  unfoldable pub test_key_permissions : M K.State (Unit {0})
  unfolding add_user unlink_session pass_if_zero fail
  test_key_permissions = do
    printf (text "Test: Set key permissions... " ∷ [])
    key ← add_user (codes "perm_test") (codes "data") session_keyring
    elim key [
      | err e ↦ fail []
      | ok k ↦ do r ← act (K.setperm (id k) pos_all); pass_if_zero r; unlink_session k
    ]
