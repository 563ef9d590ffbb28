-- ===== src/Security/Keys/Suite/Tally.antt =====
-- The counters of test_keyring.c.
use linux_kernel_prog.Prelude.{
  ℕ, suc, ◌+◌, ◌≡◌, refl, Option, none, some, List, arith, codes, ap, ◌∙◌, true, inl, inr,
}
use mathlib.Core.Path.{fun_ext}
use mathlib.Core.Option.{some-injective}
use linux_kernel_prog.Kernel.{Result, ok, Result-cases}
use linux_kernel_prog.Security.Keys.{Serial, session_keyring, put_nul, id, Keyutils, World}
use linux_kernel_prog.Security.Strings.{text_at, fill}
use linux_kernel_prog.Security.Keys.Suite.{
  pass, same_text, fail, fail_errno, add_user, judge_created, judge_read, unlink_session,
  pass_if_zero, test_create_key, test_read_key, test_search_key, test_key_permissions,
}
use linux_kernel_prog.Security.Keys.Suite.Rest.{
  wait, expiry_line, judge_timeout, judge_revoke, judge_revoked, link_in_both, judge_link,
  judge_unlink, clear_both, judge_clear, judge_empty, test_key_timeout, test_key_revoke,
  test_key_linking, test_keyring_clear,
}
use linux_kernel_prog.Security.Keys.Documented.{IsReader, put_nul-text_at, c_string-lacks}

-- The number of verdicts after a command, unless it has faulted.
abbrev pub tally : {S A : Type 0} → Option (A × World S) → Option ℕ
tally none = none
tally (some (a, w)) = some (w.passed + w.failed)

-- The two counters after a command.
abbrev pub score : {S A : Type 0} → Option (A × World S) → Option (ℕ × ℕ)
score none = none
score (some (a, w)) = some (w.passed, w.failed)

tally-score :
    {S A : Type 0} (o : Option (A × World S)) {p f n : ℕ}
    → score o ≡ some (p, f)
    → p + f ≡ n
    → tally o ≡ some n
tally-score none h e = cc
tally-score (some (a, w)) h e = ground arith

pub tally-some :
    {S A : Type 0} (o : Option (A × World S)) {n : ℕ}
    → tally o ≡ some n
    → (a : A) × (w : World S) × (o ≡ some (a, w)) × (w.passed + w.failed ≡ n)
tally-some none h = cc
tally-some (some (a, w)) h = (a, w, refl, some-injective _ _ h)

-- What is documented of a key that was just added and of reading: it holds what was added.
pub record Keeps (K : Keyutils) (held : Serial → K.State → Result (List ℕ)) : Type 0 where
  pub reads : IsReader held K.read
  pub kept :
      (type desc payload : List ℕ) (ring : Serial) (s : K.State) {k : ℕ}
      → (K.add_key type desc payload ring s).0 ≡ ok k
      → held (id k) (K.add_key type desc payload ring s).1 ≡ ok payload

module _ (K : Keyutils) where
  pub create-tally :
      (w : World K.State) → tally (test_create_key K w) ≡ some (w.passed + w.failed + 1)
  unfolding test_create_key add_user judge_created pass fail_errno unlink_session
  create-tally w = ground arith

  pub search-tally :
      (w : World K.State) → tally (test_search_key K w) ≡ some (w.passed + w.failed + 1)
  unfolding test_search_key add_user pass fail unlink_session
  search-tally w = ground arith

  pub permissions-tally :
      (w : World K.State) → tally (test_key_permissions K w) ≡ some (w.passed + w.failed + 1)
  unfolding test_key_permissions add_user pass fail fail_errno pass_if_zero unlink_session
  permissions-tally w = ground arith

  pub timeout-tally :
      (w : World K.State) → tally (test_key_timeout K w) ≡ some (w.passed + w.failed + 1)
  unfolding test_key_timeout add_user pass fail fail_errno judge_timeout wait expiry_line
      unlink_session
  timeout-tally w = ground arith

  pub revoke-tally :
      (w : World K.State) → tally (test_key_revoke K w) ≡ some (w.passed + w.failed + 1)
  unfolding test_key_revoke add_user pass fail fail_errno judge_revoke judge_revoked unlink_session
  revoke-tally w = ground arith

  pub linking-tally :
      (w : World K.State) → tally (test_key_linking K w) ≡ some (w.passed + w.failed + 1)
  unfolding test_key_linking add_user pass fail fail_errno link_in_both judge_link judge_unlink
  linking-tally w = ground arith

  pub clear-tally :
      (w : World K.State) → tally (test_keyring_clear K w) ≡ some (w.passed + w.failed + 1)
  unfolding test_keyring_clear add_user pass fail fail_errno clear_both judge_clear judge_empty
  clear-tally w = ground arith

  module _ {held : Serial → K.State → Result (List ℕ)} (L : Keeps K held) (garbage : ℕ → ℕ) where
    judge-same :
        (n : ℕ) (p : List ℕ) (w : World K.State) {b t : List ℕ}
        → put_nul 256 (suc n) (fill garbage 256 p) ≡ some b
        → text_at b ≡ some t
        → same_text t (codes "read_test_data") ≡ true
        → judge_read K garbage (ok (suc n, p)) w ≡ pass w
    unfolding judge_read
    judge-same n p w put shown same = rw (judge_read, put, shown, same) refl

    judge-passes : judge_read K garbage (ok (14, codes "read_test_data")) ≡ pass
    judge-passes = fun_ext (λ w.
        let (b, put, shown) = put_nul-text_at garbage 256 (codes "read_test_data") (omega arith) in
        judge-same 13 (codes "read_test_data") w put
          (shown ∙ ap some (c_string-lacks (codes "read_test_data") refl)) refl)

    -- The read test passes once its key is added.
    pub read-score :
        (w : World K.State) {k : ℕ}
        → (K.add_key
            (codes "user")
            (codes "read_test")
            (codes "read_test_data")
            session_keyring
            w.keys).0
          ≡ ok k
        → score (test_read_key K garbage w) ≡ some (w.passed + 1, w.failed)
    unfolding test_read_key add_user unlink_session
    read-score w {k} h =
        let held_is = L.kept _ _ _ _ w.keys h in
        let e : K.read (id k) 256 _ ≡ ok (14, codes "read_test_data") =
          L.reads.fits (id k) 256 _ held_is (omega arith) in
        rw (h, e, judge-passes) (unfold pass in refl)

    pub read-tally :
        (w : World K.State) → tally (test_read_key K garbage w) ≡ some (w.passed + w.failed + 1)
    read-tally w =
        elim (Result-cases
          (K.add_key (codes "user") (codes "read_test") (codes "read_test_data") session_keyring
            w.keys).0) [
              | inl (k, h) ↦ tally-score (test_read_key K garbage w) (read-score w h) (omega arith)
              | inr (e, h) ↦ unfold test_read_key add_user fail in rw h (ground arith)
            ]
