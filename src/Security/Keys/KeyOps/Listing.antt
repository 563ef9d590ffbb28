-- ===== src/Security/Keys/KeyOps/Listing.antt =====
-- What `list_keyring` prints of the serial numbers that a keyring holds.
use linux_kernel_prog.Prelude.{
  ℕ, zero, suc, ◌+◌, ◌*◌, ◌/◌, ◌%◌, ◌≡◌, ◌≤◌, ◌<◌, refl, ap, none, some, List, [], ◌∷◌, ◌++◌, arith,
  length, leb, if◌then◌else◌, inl, inr, Bool-cases, tests,
}
use linux_kernel_prog.Kernel.{Result, ok}
use linux_kernel_prog.Security.Strings.{fill}
use linux_kernel_prog.Security.Keys.{
  Serial, Keyutils, Piece, text, decimal, string, serial_piece, World,
}
use linux_kernel_prog.Security.Keys.Documented.{IsReader}
use linux_kernel_prog.Security.Keys.KeyOps.{serials, key_lines, list_keyring}

-- The bytes of the serial numbers that a keyring holds, four for each, the lowest first.
abbrev pub packed : List ℕ → List ℕ
packed [] = []
packed (k ∷ ks) = (k % 256) ∷ (k / 256 % 256) ∷ (k / 65536 % 256) ∷ (k / 16777216) ∷ packed ks

length-packed : (ks : List ℕ) → length (packed ks) ≡ 4 * length ks
length-packed [] = refl
length-packed (k ∷ ks) = omega (arith, length-packed ks)

bytes-join :
    (k : ℕ)
    → k % 256 + 256 * (k / 256 % 256) + 65536 * (k / 65536 % 256) + 16777216 * (k / 16777216) ≡ k
bytes-join k = omega arith

module _ (garbage : ℕ → ℕ) where
  serials-packed :
      (size : ℕ) (ks : List ℕ)
      → 4 * length ks ≤ size
      → serials (length ks) (fill garbage size (packed ks)) ≡ some ks
  unfolding serials fill
  serials-packed size [] h = refl
  serials-packed (suc (suc (suc (suc n)))) (k ∷ ks) h =
      rw (serials-packed n ks (omega arith)) (ap (λ j. some (j ∷ ks)) (bytes-join k))
  serials-packed (suc (suc (suc zero))) (k ∷ ks) h = absurd (omega arith)
  serials-packed (suc (suc zero)) (k ∷ ks) h = absurd (omega arith)
  serials-packed (suc zero) (k ∷ ks) h = absurd (omega arith)
  serials-packed zero (k ∷ ks) h = absurd (omega arith)

  length-fill : (size : ℕ) (bs : List ℕ) → length (fill garbage size bs) ≡ size
  unfolding fill
  length-fill zero bs = refl
  length-fill (suc n) [] = omega (arith, length-fill n [])
  length-fill (suc n) (b ∷ bs) = omega (arith, length-fill n bs)

serials-beyond : (n : ℕ) (bs : List ℕ) → length bs < 4 * n → serials n bs ≡ none
unfolding serials
serials-beyond zero bs h = absurd (omega arith)
serials-beyond (suc n) [] h = refl
serials-beyond (suc n) (a ∷ []) h = refl
serials-beyond (suc n) (a ∷ b ∷ []) h = refl
serials-beyond (suc n) (a ∷ b ∷ c ∷ []) h = refl
serials-beyond (suc n) (a ∷ b ∷ c ∷ d ∷ bs) h = rw (serials-beyond n bs (omega arith)) refl

abbrev pub list_head : Serial → (name : List ℕ) → List Piece
list_head ring name =
    text "Listing keyring: " ∷ string name ∷ text " (ID: " ∷ serial_piece ring ∷ text ")\n" ∷ []

abbrev pub count_line : ℕ → List Piece
count_line n = text "  Contains " ∷ decimal n ∷ text " keys:\n" ∷ []

module _ (K : Keyutils) (garbage : ℕ → ℕ) {held : Serial → K.State → Result (List ℕ)}
    (R : IsReader held K.read) where
  list_keyring-fits :
      (ring : Serial) (name : List ℕ) (w : World K.State) (ks : List ℕ)
      → held ring w.keys ≡ ok (packed ks)
      → length ks ≤ 4096
      → list_keyring K garbage ring name w
        ≡ some (
          tt,
          record w {
            out =
                (((w.out ++ list_head ring name) ++ count_line (length ks)) ++ key_lines ks)
                ++ text "\n" ∷ [];
          },
        )
  unfolding list_keyring
  list_keyring-fits ring name w ks h room =
      let e = R.fits ring 16384 w.keys h (omega (arith, length-packed ks)) in
      let size : length (packed ks) / 4 ≡ length ks = omega (arith, length-packed ks) in
      rw (e, size, serials-packed garbage 16384 ks (omega arith)) refl

  list_keyring-exceeds :
      (ring : Serial) (name : List ℕ) (w : World K.State) (ks : List ℕ)
      → held ring w.keys ≡ ok (packed ks)
      → 4096 < length ks
      → list_keyring K garbage ring name w ≡ none
  unfolding list_keyring
  list_keyring-exceeds ring name w ks h room =
      let (bs, e) = R.exceeds ring 16384 w.keys h (omega (arith, length-packed ks)) in
      let size : length (packed ks) / 4 ≡ length ks = omega (arith, length-packed ks) in
      let short : length (fill garbage 16384 bs) < 4 * length ks =
        omega (arith, length-fill garbage 16384 bs) in
      rw (e, size, serials-beyond (length ks) (fill garbage 16384 bs) short) refl

  -- For a keyring that holds a list of keys, `list_keyring` prints their number and each serial
  -- number in order when there are at most 4096 keys, and reads past its array when there are
  -- more, if the library keeps to what is documented of a read.
  pub list_keyring-decides :
      (ring : Serial) (name : List ℕ) (w : World K.State) (ks : List ℕ)
      → held ring w.keys ≡ ok (packed ks)
      → list_keyring K garbage ring name w ≡ (
          if leb (length ks) 4096
          then some (
            tt,
            record w {
              out =
                  (((w.out ++ list_head ring name) ++ count_line (length ks)) ++ key_lines ks)
                  ++ text "\n" ∷ [];
            },
          )
          else none)
  list_keyring-decides ring name w ks h = elim (Bool-cases (leb (length ks) 4096)) [
    | inl fits ↦ rw fits (list_keyring-fits ring name w ks h (omega tests))
    | inr beyond ↦ rw beyond (list_keyring-exceeds ring name w ks h (ground arith))
  ]
