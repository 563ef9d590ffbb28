-- ===== src/Security/Examples.antt =====
-- The theorems on security/part2 at concrete keyrings.
use linux_kernel_prog.Prelude.{
  ℕ, ◌+◌, ◌≡◌, ◌↔◌, refl, none, some, [], ◌∷◌, ◌++◌, false, arith, codes, replicate,
}
use linux_kernel_prog.Kernel.{ok, Errno}
use linux_kernel_prog.Security.Strings.Tokens.{strtok_calls, handed_out, parts, strtok_calls-parts}
use linux_kernel_prog.Security.Strings.Fields.{joined, strtok_calls-joined}
use linux_kernel_prog.Security.Keys.{session_keyring, id, World, text, string}
use linux_kernel_prog.Security.Keys.Memory.{
  Store, Key, in_memory, held, in_memory-IsReader, described_in-IsReader, in_memory-Keeps,
}
use linux_kernel_prog.Security.Keys.KeyOps.{
  create_key, read_key, list_keyring, show_key_info, key_lines,
}
use linux_kernel_prog.Security.Keys.KeyOps.Reading.{
  after_read, read_head, read_lines, read_key-decides, read_key-create_key,
}
use linux_kernel_prog.Security.Keys.KeyOps.Listing.{list_head, count_line, list_keyring-decides}
use linux_kernel_prog.Security.Keys.KeyOps.Describing.{info_head, info_lines, show_key_info-fields}
use linux_kernel_prog.Security.Keys.Keyctl.Program.{show_key_revocation, describe_keys}
use linux_kernel_prog.Security.Keys.Keyctl.Faults.{
  show_key_revocation-unterminated, describe_keys-beyond,
}
use linux_kernel_prog.Security.Keys.Suite.Rest
use linux_kernel_prog.Security.Keys.Suite.Verdict.{main-eight}

-- One key in the session keyring.
abbrev my_key : Key
my_key = record {
  number = 4;
  ring = 1;
  type = codes "user";
  desc = codes "mykey";
  payload = codes "secret";
  revoked = false;
}

abbrev world_of : Store → World Store
world_of s = record { keys = s; out = []; errno = Errno.einval; passed = 0; failed = 0 }

abbrev empty_world : World Store
empty_world = world_of (record { keys = []; next = 0 })

abbrev one_key : World Store
one_key = world_of (record { keys = my_key ∷ []; next = 1 })

abbrev zeros : ℕ → ℕ
zeros n = 0

abbrev ones : ℕ → ℕ
ones n = 1

strtok_calls-parts_example :
    strtok_calls 59 3 (codes ";a;;b") ≡ handed_out 3 (parts 59 (codes ";a;;b"))
strtok_calls-parts_example = strtok_calls-parts 59 3 (codes ";a;;b")

strtok_calls-joined_example :
    strtok_calls 59 3 (joined 59 (codes "a") (codes "b" ∷ []))
    ≡ handed_out 3 (codes "a" ∷ codes "b" ∷ [])
strtok_calls-joined_example =
    strtok_calls-joined 59 3 (codes "a") (codes "b" ∷ []) (record { whole = refl; filled = cc })
      (record { whole = refl; filled = cc }, tt)

read_key-decides_example :
    read_key in_memory zeros 4 one_key ≡ after_read 4 (held (id 4) one_key.keys) one_key
read_key-decides_example = read_key-decides in_memory zeros in_memory-IsReader 4 one_key

read_key-create_key_example :
    (u : World Store) × (create_key in_memory zeros
        (codes "user")
        (codes "token")
        (codes "abc")
        session_keyring
        empty_world
      ≡ some (ok 4, u))
    × (u.keys
        ≡ (in_memory.add_key
            (codes "user")
            (codes "token")
            (codes "abc")
            session_keyring
            empty_world.keys).1)
    × (read_key in_memory zeros 4 u
        ≡ some (ok 0, record u { out = (u.out ++ read_head 4) ++ read_lines (codes "abc") 3 }))
read_key-create_key_example =
    read_key-create_key in_memory zeros in_memory-IsReader (codes "user") (codes "token")
      (codes "abc") session_keyring empty_world refl refl (omega arith) refl

list_keyring-decides_example :
    list_keyring in_memory zeros session_keyring (codes "session") one_key
    ≡ some (
      tt,
      record one_key {
        out =
            (((one_key.out ++ list_head session_keyring (codes "session")) ++ count_line 1)
              ++ key_lines (4 ∷ []))
            ++ text "\n" ∷ [];
      },
    )
list_keyring-decides_example =
    list_keyring-decides in_memory zeros in_memory-IsReader session_keyring (codes "session")
      one_key (4 ∷ []) refl

main-eight_example :
    (r : ℕ) × (v : World Store) × (Rest.main in_memory zeros empty_world ≡ some (r, v))
    × (v.passed + v.failed ≡ 8)
    × ((r ≡ 0) ↔ (v.failed ≡ 0))
main-eight_example = main-eight in_memory in_memory-Keeps zeros empty_world

show_key_info-fields_example :
    show_key_info in_memory zeros 4 one_key
    ≡ some (
      tt,
      record one_key {
        out =
            (((one_key.out ++ info_head 4)
                ++ text "  Description: "
                  ∷ string (codes "user;1000;1000;3f010000;mykey")
                  ∷ text "\n"
                  ∷ [])
              ++ info_lines
                  (codes "user")
                  (codes "1000")
                  (codes "1000")
                  (codes "3f010000")
                  (codes "mykey"))
            ++ text "\n" ∷ [];
      },
    )
unfolding joined
show_key_info-fields_example =
    show_key_info-fields in_memory zeros described_in-IsReader 4 one_key (codes "user")
      (codes "1000") (codes "1000") (codes "3f010000") (codes "mykey") refl
      (
        record { whole = refl; filled = cc },
        (
          record { whole = refl; filled = cc },
          (
            record { whole = refl; filled = cc },
            (record { whole = refl; filled = cc }, (record { whole = refl; filled = cc }, tt)),
          ),
        ),
      )
      refl (omega arith)

show_key_revocation-unterminated_example : show_key_revocation in_memory ones empty_world ≡ none
show_key_revocation-unterminated_example =
    show_key_revocation-unterminated in_memory in_memory-Keeps ones empty_world refl (λ i. cc)

-- A key whose description alone has 256 bytes.
abbrev long_key : World Store
long_key = world_of (record { keys = record my_key { desc = replicate 256 97 } ∷ []; next = 1 })

describe_keys-beyond_example : describe_keys in_memory zeros 0 (4 ∷ []) [] long_key ≡ none
unfolding joined
describe_keys-beyond_example =
    describe_keys-beyond in_memory zeros described_in-IsReader 0 0 4 (4 ∷ []) [] long_key refl refl
      (omega arith)
