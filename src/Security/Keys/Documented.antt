-- ===== src/Security/Keys/Documented.antt =====
-- What keyctl(2) and keyctl_read(3) say of the calls of libkeyutils, in terms of what a key holds.
use linux_kernel_prog.Prelude.{
  ℕ, zero, suc, ◌≡◌, ◌≤◌, ◌<◌, ◌++◌, true, refl, inl, inr, none, some, List, [], ◌∷◌, arith, length,
  set, Option-cases, lt→ltb,
}
use linux_kernel_prog.Kernel.{Result, ok, err, Errno}
use linux_kernel_prog.Interfaces.Counter.{c_string}
use linux_kernel_prog.Security.Strings.{text_at, fill}
use linux_kernel_prog.Security.Strings.Fields.{lacks}
use linux_kernel_prog.Security.Keys.{Serial, put_nul}

-- A call that copies what a key holds into an array with some room: it returns the size of what
-- the key holds also when the room is too small, and what the array holds then is not defined.
pub record IsReader {S : Type 0} (held : Serial → S → Result (List ℕ))
    (call : Serial → ℕ → S → Result (ℕ × List ℕ)) : Type 0 where
  pub refused :
      (k : Serial) (room : ℕ) (s : S) {e : Errno} → held k s ≡ err e → call k room s ≡ err e
  pub fits :
      (k : Serial) (room : ℕ) (s : S) {p : List ℕ}
      → held k s ≡ ok p
      → length p ≤ room
      → call k room s ≡ ok (length p, p)
  pub exceeds :
      (k : Serial) (room : ℕ) (s : S) {p : List ℕ}
      → held k s ≡ ok p
      → room < length p
      → (bs : List ℕ) × (call k room s ≡ ok (length p, bs))

module _ (garbage : ℕ → ℕ) where
  text_at-fill :
      (size : ℕ) (p : List ℕ)
      → length p < size
      → text_at (set (fill garbage size p) (length p) 0) ≡ some (c_string p)
  unfolding text_at fill c_string
  text_at-fill zero p h = absurd (omega arith)
  text_at-fill (suc n) [] h = elim (Option-cases (text_at (fill garbage n []))) [
    | inl e ↦ rw e refl
    | inr (t, e) ↦ rw e refl
  ]
  text_at-fill (suc n) (c ∷ cs) h = rw (text_at-fill n cs (omega arith)) (ground arith)

  -- A text that fits, terminated at its size, reads as itself, whatever stood in the array.
  pub put_nul-text_at :
      (size : ℕ) (p : List ℕ)
      → length p < size
      → (b : List ℕ) × (put_nul size (length p) (fill garbage size p) ≡ some b)
        × (text_at b ≡ some (c_string p))
  unfolding put_nul
  put_nul-text_at size p h = (
    set (fill garbage size p) (length p) 0,
    rw (lt→ltb (length p) size h) refl,
    text_at-fill size p h,
  )

pub put_nul-beyond : (size at : ℕ) (b : List ℕ) → size ≤ at → put_nul size at b ≡ none
unfolding put_nul
put_nul-beyond size at b h = ground arith

pub c_string-append : (t : List ℕ) → lacks 0 t ≡ true → c_string (t ++ 0 ∷ []) ≡ t
unfolding c_string
c_string-append [] h = refl
c_string-append (c ∷ cs) h = ground (arith, c_string-append cs)

pub c_string-lacks : (t : List ℕ) → lacks 0 t ≡ true → c_string t ≡ t
unfolding c_string
c_string-lacks [] h = refl
c_string-lacks (c ∷ cs) h = ground (arith, c_string-lacks cs)
