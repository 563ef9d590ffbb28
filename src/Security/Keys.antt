-- ===== src/Security/Keys.antt =====
-- security/part2: the library that its user programs call, and the programs as commands on the keys
-- and on what they have printed. libkeyutils is a record of operations on a state of its own.
pub mod Documented
pub mod KeyOps
pub mod Keyctl
pub mod Suite
pub mod Memory
use linux_kernel_prog.Prelude.{ℕ, Option, none, some, List, [], ◌∷◌, ◌++◌, ltb, set, if◌then◌else◌}
use Prim.Native.String.{String}
use linux_kernel_prog.Kernel.{Result, ok, err, Errno}

-- A `key_serial_t` that a call is given: one of the `KEY_SPEC_` numbers, or a key's own number.
pub data Serial : Type 0 where
  session_keyring process_keyring user_keyring : Serial
  id : ℕ → Serial

-- The calls of libkeyutils. A negative return value is `err`. A read hands out the size it returns
-- and the bytes that it put in the caller's array.
pub record Keyutils : Type 1 where
  pub State : Type 0
  pub add_key : (type desc payload : List ℕ) → Serial → State → Result ℕ × State
  pub read : Serial → (room : ℕ) → State → Result (ℕ × List ℕ)
  pub describe : Serial → (room : ℕ) → State → Result (ℕ × List ℕ)
  pub search : Serial → (type desc : List ℕ) → State → Result ℕ
  pub get_keyring_id : Serial → State → Result ℕ × State
  pub set_timeout : Serial → (seconds : ℕ) → State → Result ℕ × State
  pub setperm : Serial → (perm : ℕ) → State → Result ℕ × State
  pub chown : Serial → (uid gid : ℕ) → State → Result ℕ × State
  pub link : Serial → Serial → State → Result ℕ × State
  pub unlink : Serial → Serial → State → Result ℕ × State
  pub revoke : Serial → State → Result ℕ × State
  pub invalidate : Serial → State → Result ℕ × State
  pub clear : Serial → State → Result ℕ × State
  pub sleep : (seconds : ℕ) → State → State

-- A piece of what is printed: a text of the source, a number, a string from a buffer, the text of
-- an error.
pub data Piece : Type 0 where
  text : String → Piece
  decimal : ℕ → Piece
  hex : ℕ → Piece
  minus_one : Piece
  string : List ℕ → Piece
  spec : Serial → Piece
  reason : Errno → Piece

abbrev pub serial_piece : Serial → Piece
serial_piece (id n) = decimal n
serial_piece s = spec s

-- The keys, what was printed so far, `errno`, and the two counters of test_keyring.c.
pub record World (S : Type 0) : Type 0 where
  pub keys : S
  pub out : List Piece
  pub errno : Errno
  pub passed : ℕ
  pub failed : ℕ

-- A command; `none` is a fault, a write or a read outside of an array.
abbrev pub M : Type 0 → Type 0 → Type 0
M S A = World S → Option (A × World S)

abbrev pub errno_after : {A : Type 0} → Result A → Errno → Errno
errno_after (ok a) e = e
errno_after (err e) _ = e

module _ {S : Type 0} where
  infixl 5 ◌>>=◌ ◌>>◌
  abbrev pub ◌>>=◌ : {A B : Type 0} → M S A → (A → M S B) → M S B
  ◌>>=◌ m f w = elim (m w) [ none ↦ none | some (a, w') ↦ f a w' ]

  abbrev pub ◌>>◌ : {A B : Type 0} → M S A → M S B → M S B
  ◌>>◌ m n w = elim (m w) [ none ↦ none | some (a, w') ↦ n w' ]

  abbrev pub pure : {A : Type 0} → A → M S A
  pure a w = some (a, w)

  abbrev pub or_fault : {A : Type 0} → Option A → M S A
  or_fault o w = elim o [ none ↦ none | some a ↦ some (a, w) ]

  abbrev pub printf : List Piece → M S (Unit {0})
  printf ps w = some (tt, record w { out = w.out ++ ps })

  abbrev pub perror : String → M S (Unit {0})
  perror name w = some (tt, record w { out = w.out ++ text name ∷ reason w.errno ∷ [] })

  -- A call that may change the keys, and one that only reads them.
  abbrev pub act : {A : Type 0} → (S → Result A × S) → M S (Result A)
  act f w =
      some
        ((f w.keys).0, record w { keys = (f w.keys).1; errno = errno_after (f w.keys).0 w.errno })

  abbrev pub ask : {A : Type 0} → (S → Result A) → M S (Result A)
  ask f w = some (f w.keys, record w { errno = errno_after (f w.keys) w.errno })

-- `buffer[at] = '\0'` in an array of a size.
unfoldable pub put_nul : (size at : ℕ) → List ℕ → Option (List ℕ)
put_nul size at buffer = if ltb at size then some (set buffer at 0) else none
