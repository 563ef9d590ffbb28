-- ===== src/Security/Keys/KeyOps/Describing.antt =====
-- What `show_key_info` makes of a description `type;uid;gid;perm;description`.
use linux_kernel_prog.Prelude.{
  ℕ, ◌≡◌, ◌≤◌, refl, ap, some, List, [], ◌∷◌, ◌++◌, true, arith, length, length-append,
}
use linux_kernel_prog.Kernel.{Result, ok}
use linux_kernel_prog.Security.Strings.Tokens.{strtok_calls, handed_out}
use linux_kernel_prog.Security.Strings.Fields.{lacks, AreFields, joined, strtok_calls-joined}
use linux_kernel_prog.Security.Keys.{Serial, id, Keyutils, Piece, text, decimal, string, World}
use linux_kernel_prog.Security.Keys.Documented.{IsReader, put_nul-text_at, c_string-append}
use linux_kernel_prog.Security.Keys.KeyOps.{field_lines, show_key_info}

-- The code of `;`.
abbrev pub semicolon : ℕ
semicolon = 59

abbrev pub described : (type uid gid perm desc : List ℕ) → List ℕ
described type uid gid perm desc = joined semicolon type (uid ∷ gid ∷ perm ∷ desc ∷ [])

abbrev pub info_lines : (type uid gid perm desc : List ℕ) → List Piece
info_lines type uid gid perm desc =
    text "  Type: "
    ∷ string type
    ∷ text "\n  Owner UID: "
    ∷ string uid
    ∷ text "\n  Owner GID: "
    ∷ string gid
    ∷ text "\n  Permissions: "
    ∷ string perm
    ∷ text " (hex)\n  Description: "
    ∷ string desc
    ∷ text "\n"
    ∷ []

abbrev pub info_head : ℕ → List Piece
info_head key = text "Key ID " ∷ decimal key ∷ text " information:\n" ∷ []

five_calls :
    (type uid gid perm desc : List ℕ)
    → AreFields semicolon (type ∷ uid ∷ gid ∷ perm ∷ desc ∷ [])
    → field_lines (strtok_calls semicolon 5 (described type uid gid perm desc))
      ≡ info_lines type uid gid perm desc
unfolding field_lines handed_out
five_calls type uid gid perm desc (v, vs) =
    ap field_lines (strtok_calls-joined semicolon 5 type (uid ∷ gid ∷ perm ∷ desc ∷ []) v vs)

module _ (K : Keyutils) (garbage : ℕ → ℕ) {held : Serial → K.State → Result (List ℕ)}
    (R : IsReader held K.describe) where
  -- Of a description whose five fields are not empty and have no semicolon in them,
  -- `show_key_info` prints each field as it is, if the whole has no NUL in it and at most 4094
  -- bytes, and if the library keeps to what is documented of a description.
  pub show_key_info-fields :
      (key : ℕ) (w : World K.State) (type uid gid perm desc : List ℕ)
      → held (id key) w.keys ≡ ok (described type uid gid perm desc ++ 0 ∷ [])
      → AreFields semicolon (type ∷ uid ∷ gid ∷ perm ∷ desc ∷ [])
      → lacks 0 (described type uid gid perm desc) ≡ true
      → length (described type uid gid perm desc) ≤ 4094
      → show_key_info K garbage key w
        ≡ some (
          tt,
          record w {
            out =
                (((w.out ++ info_head key)
                    ++ text "  Description: "
                      ∷ string (described type uid gid perm desc)
                      ∷ text "\n"
                      ∷ [])
                  ++ info_lines type uid gid perm desc)
                ++ text "\n" ∷ [];
          },
        )
  unfolding show_key_info
  show_key_info-fields key w type uid gid perm desc h fields whole room =
      let d : List ℕ = described type uid gid perm desc in
      let size : length (d ++ 0 ∷ []) ≤ 4095 = omega (arith, length-append d (0 ∷ [])) in
      let (b, put, shown) = put_nul-text_at garbage 4096 (d ++ 0 ∷ []) (omega arith) in
      rw
        (
          R.fits (id key) 4095 w.keys h size,
          put,
          shown,
          c_string-append d whole,
          five_calls type uid gid perm desc fields,
        )
        refl
