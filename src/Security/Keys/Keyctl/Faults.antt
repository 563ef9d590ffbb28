-- ===== src/Security/Keys/Keyctl/Faults.antt =====
-- Where keyctl.c leaves its local arrays.
use linux_kernel_prog.Prelude.{
  ℕ, zero, suc, ◌≡◌, ◌≢◌, ◌≤◌, refl, ap, ◌∙◌, none, some, List, [], ◌∷◌, true, arith, tests, codes,
  length, get_elem?, leb, Bool-cases, inl, inr, Option-cases,
}
use mathlib.Core.Option.{some-injective}
use linux_kernel_prog.Kernel.{Result, ok}
use linux_kernel_prog.Security.Strings.{text_at, fill}
use linux_kernel_prog.Security.Strings.Fields.{lacks}
use linux_kernel_prog.Security.Keys.{
  Serial, session_keyring, id, Keyutils, World, errno_after, ◌>>=◌,
}
use linux_kernel_prog.Security.Keys.Documented.{IsReader, put_nul-beyond}
use linux_kernel_prog.Security.Keys.Keyctl.{add_to_session}
use linux_kernel_prog.Security.Keys.Keyctl.Program.{
  show_key_revocation, print_payload, describe_line, describe_keys, copy_in,
}
use linux_kernel_prog.Security.Keys.Suite.Tally.{Keeps}

-- Bytes with no NUL among them, in an array with none elsewhere, have no end.
text_at-endless :
    (garbage : ℕ → ℕ) (size : ℕ) (p : List ℕ)
    → ((i : ℕ) → garbage i ≢ 0)
    → lacks 0 p ≡ true
    → text_at (fill garbage size p) ≡ none
unfolding text_at fill
text_at-endless garbage zero p full h = refl
text_at-endless garbage (suc n) [] full h =
    rw (text_at-endless garbage n [] full refl) (ground (arith, full n))
text_at-endless garbage (suc n) (c ∷ cs) full h =
    rw (text_at-endless garbage n cs full (ground arith)) (ground arith)

module _ (K : Keyutils) {held : Serial → K.State → Result (List ℕ)} (L : Keeps K held)
    (garbage : ℕ → ℕ) where
  -- When its key can be added, `show_key_revocation` reads past its array if no byte of the array
  -- happens to be NUL, since it prints the payload without a terminator.
  pub show_key_revocation-unterminated :
      (w : World K.State) {k : ℕ}
      → (K.add_key
          (codes "user")
          (codes "revoke_key")
          (codes "will_be_revoked")
          session_keyring
          w.keys).0
        ≡ ok k
      → ((i : ℕ) → garbage i ≢ 0)
      → show_key_revocation K garbage w ≡ none
  unfolding show_key_revocation add_to_session print_payload
  show_key_revocation-unterminated w {k} h full =
      let e : K.read (id k) 256 _ ≡ ok (15, codes "will_be_revoked") =
        L.reads.fits (id k) 256 _ (L.kept _ _ _ _ w.keys h) (omega arith) in
      rw (h, e, text_at-endless garbage 256 (codes "will_be_revoked") full refl) refl

module _ (K : Keyutils) (garbage : ℕ → ℕ) {described : Serial → K.State → Result (List ℕ)}
    (R : IsReader described K.describe) where
  abbrev asked : World K.State → Result (ℕ × List ℕ) → World K.State
  asked w r = record w { errno = errno_after r w.errno }

  describe_line-keys :
      (i key : ℕ) (desc : List ℕ) (r : Result (ℕ × List ℕ)) (w : World K.State) {a : List ℕ}
      {v : World K.State}
      → describe_line K garbage i key desc r w ≡ some (a, v)
      → v.keys ≡ w.keys
  unfolding describe_line
  describe_line-keys i key desc r w h = ground arith

  describe_line-beyond :
      (i key n : ℕ) (desc bs : List ℕ) (w : World K.State)
      → 256 ≤ n
      → describe_line K garbage i key desc (ok (n, bs)) w ≡ none
  unfolding describe_line
  describe_line-beyond i key zero desc bs w h = absurd (omega arith)
  describe_line-beyond i key (suc n) desc bs w h =
      rw (put_nul-beyond 256 (suc n) (copy_in desc bs) h) refl

  long-described :
      (key : ℕ) (s : K.State) {p : List ℕ}
      → described (id key) s ≡ ok p
      → 256 ≤ length p
      → (bs : List ℕ) × (K.describe (id key) 256 s ≡ ok (length p, bs))
  long-described key s {p} h long = elim (Bool-cases (leb (length p) 256)) [
    | inl short ↦ (p, R.fits (id key) 256 s h (omega tests))
    | inr longer ↦ R.exceeds (id key) 256 s h (ground arith)
  ]

  -- The loop of `show_keyring_contents` writes outside of its array when one of the keys has a
  -- description of 256 bytes or more, its terminator counted, if the library keeps to what is
  -- documented of a description.
  pub describe_keys-beyond :
      (i j key : ℕ) (keys desc : List ℕ) (w : World K.State) {p : List ℕ}
      → get_elem? keys j ≡ some key
      → described (id key) w.keys ≡ ok p
      → 256 ≤ length p
      → describe_keys K garbage i keys desc w ≡ none
  unfolding describe_keys
  describe_keys-beyond i j key [] desc w at h long = cc
  describe_keys-beyond i zero key (k ∷ keys) desc w {p} at h long =
      let same : k ≡ key = some-injective _ _ at in
      let (bs, e) = long-described k w.keys (ap (λ x. described (id x) w.keys) same ∙ h) long in
      rw (e, ◌>>=◌, describe_line-beyond i k (length p) desc bs (asked w (ok (length p, bs))) long)
        refl
  describe_keys-beyond i (suc j) key (k ∷ keys) desc w {p} at h long =
      let r : Result (ℕ × List ℕ) = K.describe (id k) 256 w.keys in
      elim (Option-cases (describe_line K garbage i k desc r (asked w r))) [
        | inl e ↦ rw (◌>>=◌, e) refl
        | inr ((a, v), e) ↦
            let kept : v.keys ≡ w.keys = describe_line-keys i k desc r (asked w r) e in
            rw (◌>>=◌, e)
              (describe_keys-beyond (suc i) j key keys a v at (ap (described (id key)) kept ∙ h)
                long)
      ]
