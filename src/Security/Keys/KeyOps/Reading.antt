-- ===== src/Security/Keys/KeyOps/Reading.antt =====
-- What `read_key` prints.
use linux_kernel_prog.Prelude.{
  ℕ, ◌≡◌, ◌≤◌, ◌<◌, refl, inl, inr, Option, none, some, List, [], ◌∷◌, ◌++◌, true, arith, tests,
  length, leb, if◌then◌else◌, Bool-cases,
}
use linux_kernel_prog.Kernel.{Result, ok, err, Result-cases}
use linux_kernel_prog.Interfaces.Counter.{c_string}
use linux_kernel_prog.Security.Strings.{fill}
use linux_kernel_prog.Security.Keys.{
  Serial, id, Keyutils, Piece, text, decimal, string, reason, serial_piece, World,
}
use linux_kernel_prog.Security.Keys.Documented.{
  IsReader, put_nul-text_at, put_nul-beyond, c_string-lacks,
}
use linux_kernel_prog.Security.Keys.KeyOps.{create_key, read_key}
use linux_kernel_prog.Security.Strings.Fields.{lacks}

-- What stands on the screen after a key of this text and size was read.
abbrev pub read_lines : List ℕ → ℕ → List Piece
read_lines shown size =
    text "  Data: " ∷ string shown ∷ text "\n  Length: " ∷ decimal size ∷ text " bytes\n\n" ∷ []

abbrev pub read_head : ℕ → List Piece
read_head key = text "Reading key ID " ∷ decimal key ∷ text ":\n" ∷ []

abbrev create_head : (type desc payload : List ℕ) → Serial → List Piece
create_head type desc payload ring =
    text "Creating key:\n  Type: "
    ∷ string type
    ∷ text "\n  Description: "
    ∷ string desc
    ∷ text "\n  Data: "
    ∷ string payload
    ∷ text "\n  Keyring: "
    ∷ serial_piece ring
    ∷ text "\n"
    ∷ []

abbrev create_line : ℕ → List Piece
create_line k = text "  Created key ID: " ∷ decimal k ∷ text "\n\n" ∷ []

-- What comes of reading a key that holds this: the text up to its first NUL and its size, or the
-- error, or a fault from the terminator that is written at the size.
abbrev pub after_read : {S : Type 0} → ℕ → Result (List ℕ) → World S → Option (Result ℕ × World S)
after_read key (err e) w = some (
  err e,
  record w { errno = e; out = (w.out ++ read_head key) ++ text "keyctl_read" ∷ reason e ∷ [] },
)
after_read key (ok p) w =
    if leb (length p) 4095
    then some
        (ok 0, record w { out = (w.out ++ read_head key) ++ read_lines (c_string p) (length p) })
    else none

module _ (K : Keyutils) (garbage : ℕ → ℕ) {held : Serial → K.State → Result (List ℕ)}
    (R : IsReader held K.read) where
  read_key-fits :
      (key : ℕ) (w : World K.State) (p : List ℕ)
      → held (id key) w.keys ≡ ok p
      → length p ≤ 4095
      → read_key K garbage key w
        ≡ some (
          ok 0,
          record w { out = (w.out ++ read_head key) ++ read_lines (c_string p) (length p) },
        )
  unfolding read_key
  read_key-fits key w p h room =
      let (b, put, shown) = put_nul-text_at garbage 4096 p (omega arith) in
      rw (R.fits (id key) 4095 w.keys h room, put, shown) refl

  read_key-exceeds :
      (key : ℕ) (w : World K.State) (p : List ℕ)
      → held (id key) w.keys ≡ ok p
      → 4095 < length p
      → read_key K garbage key w ≡ none
  unfolding read_key
  read_key-exceeds key w p h room =
      let (bs, e) = R.exceeds (id key) 4095 w.keys h room in
      rw (e, put_nul-beyond 4096 (length p) (fill garbage 4096 bs) (omega arith)) refl

  -- If the library keeps to what is documented of a read, `read_key` prints what the key holds up
  -- to its first NUL and its whole size when it holds at most 4095 bytes, writes outside of its
  -- array when it holds more, and reports the error of a read that is refused.
  pub read_key-decides :
      (key : ℕ) (w : World K.State)
      → read_key K garbage key w ≡ after_read key (held (id key) w.keys) w
  read_key-decides key w = elim (Result-cases (held (id key) w.keys)) [
    | inl (p, h) ↦ elim (Bool-cases (leb (length p) 4095)) [
      | inl fits ↦ rw (h, fits) (read_key-fits key w p h (omega tests))
      | inr beyond ↦ rw (h, beyond) (read_key-exceeds key w p h (ground arith))
    ]
    | inr (e, h) ↦ rw h (unfold read_key in rw (R.refused (id key) 4095 w.keys h) refl)
  ]

  create_key-added :
      (type desc payload : List ℕ) (ring : Serial) (w : World K.State) {k : ℕ} {s : K.State}
      → K.add_key type desc payload ring w.keys ≡ (ok k, s)
      → create_key K garbage type desc payload ring w
        ≡ some (
          ok k,
          record w {
            keys = s;
            out = (w.out ++ create_head type desc payload ring) ++ create_line k;
          },
        )
  unfolding create_key
  create_key-added type desc payload ring w added = rw added refl

  -- A key that was created with a text of at most 4095 bytes and no NUL in it is shown with this
  -- text and its length by `read_key`, if the library hands out what was added.
  pub read_key-create_key :
      (type desc payload : List ℕ) (ring : Serial) (w : World K.State) {k : ℕ} {s : K.State}
      → K.add_key type desc payload ring w.keys ≡ (ok k, s)
      → held (id k) s ≡ ok payload
      → length payload ≤ 4095
      → lacks 0 payload ≡ true
      → (u : World K.State) × (create_key K garbage type desc payload ring w ≡ some (ok k, u))
        × (u.keys ≡ s)
        × (read_key K garbage k u
            ≡ some (
              ok 0,
              record u { out = (u.out ++ read_head k) ++ read_lines payload (length payload) },
            ))
  read_key-create_key type desc payload ring w {k} {s} added kept room h =
      let u : World K.State = record w {
        keys = s;
        out = (w.out ++ create_head type desc payload ring) ++ create_line k;
      } in
      (
        u,
        create_key-added type desc payload ring w added,
        refl,
        rw (read_key-fits k u payload kept room, c_string-lacks payload h) refl,
      )
