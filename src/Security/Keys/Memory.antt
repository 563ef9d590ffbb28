-- ===== src/Security/Keys/Memory.antt =====
-- Keyrings in memory, which keep to what is documented of libkeyutils.
use linux_kernel_prog.Prelude.{
  ℕ, zero, suc, ◌+◌, ◌≡◌, ◌≤◌, refl, List, [], ◌∷◌, ◌++◌, Bool, true, false, arith, ◌==◌, ◌&&◌, ltb,
  length, take, codes, if◌then◌else◌, ap, ◌∙◌,
}
use mathlib.Core.Path.{subst}
use linux_kernel_prog.Kernel.{Result, ok, err, Errno}
use linux_kernel_prog.Security.Keys.{
  Serial, session_keyring, process_keyring, user_keyring, id, Keyutils,
}
use linux_kernel_prog.Security.Keys.Documented.{IsReader}
use linux_kernel_prog.Security.Keys.KeyOps.Listing.{packed}
use linux_kernel_prog.Security.Keys.KeyOps.Describing.{described}
use linux_kernel_prog.Security.Keys.Suite.{same_text}
use linux_kernel_prog.Security.Keys.Suite.Tally.{Keeps}

-- A key with the number of the one keyring it is in.
pub record Key : Type 0 where
  pub number : ℕ
  pub ring : ℕ
  pub type : List ℕ
  pub desc : List ℕ
  pub payload : List ℕ
  pub revoked : Bool

-- The keys, the newest first, and the number that the next one gets.
pub record Store : Type 0 where
  pub keys : List Key
  pub next : ℕ

-- The keyrings have the numbers 1 to 3, and keys those from 4 on.
abbrev pub number_of : Serial → ℕ
number_of session_keyring = 1
number_of process_keyring = 2
number_of user_keyring = 3
number_of (id n) = n

abbrev members : ℕ → List Key → List ℕ
members r [] = []
members r (k ∷ ks) = let rest = members r ks in if k.ring == r then k.number ∷ rest else rest

abbrev holds : Key → Result (List ℕ)
holds k = if k.revoked then err (Errno.code 128) else ok k.payload

abbrev lookup : ℕ → List Key → Result (List ℕ)
lookup n [] = err (Errno.code 126)
lookup n (k ∷ ks) = let rest = lookup n ks in if k.number == n then holds k else rest

abbrev pub held : Serial → Store → Result (List ℕ)
held s m =
    if ltb (number_of s) 4
    then ok (packed (members (number_of s) m.keys))
    else lookup (number_of s) m.keys

-- The description of a key of user and group 1000, with its terminator.
abbrev info : ℕ → List Key → Result (List ℕ)
info n [] = err (Errno.code 126)
info n (k ∷ ks) =
    let rest = info n ks in
    if k.number == n
    then ok (described k.type (codes "1000") (codes "1000") (codes "3f010000") k.desc ++ 0 ∷ [])
    else rest

abbrev pub described_in : Serial → Store → Result (List ℕ)
described_in s m = info (number_of s) m.keys

abbrev read_held : Result (List ℕ) → ℕ → Result (ℕ × List ℕ)
read_held (err e) room = err e
read_held (ok p) room = ok (length p, take room p)

abbrev find : (ring : ℕ) (type desc : List ℕ) → List Key → Result ℕ
find r type desc [] = err (Errno.code 126)
find r type desc (k ∷ ks) =
    let rest = find r type desc ks in
    if (k.ring == r) && same_text k.type type && same_text k.desc desc then ok k.number else rest

abbrev add : (type desc payload : List ℕ) → Serial → Store → Result ℕ × Store
add type desc payload ring m = (
  ok (m.next + 4),
  record {
    keys =
        record {
          number = m.next + 4;
          ring = number_of ring;
          type = type;
          desc = desc;
          payload = payload;
          revoked = false;
        }
        ∷ m.keys;
    next = m.next + 1;
  },
)

abbrev changed : (Key → Key) → ℕ → List Key → List Key
changed f n [] = []
changed f n (k ∷ ks) = let rest = changed f n ks in if k.number == n then f k ∷ rest else k ∷ rest

abbrev done : {A : Type 0} → A → Result ℕ × A
done s = (ok 0, s)

abbrev pub in_memory : Keyutils
in_memory = record {
  State = Store;
  add_key = add;
  read = λ s room m. read_held (held s m) room;
  describe = λ s room m. read_held (described_in s m) room;
  search = λ s type desc m. find (number_of s) type desc m.keys;
  get_keyring_id = λ s m. (ok (number_of s), m);
  set_timeout = λ s n m. done m;
  setperm = λ s perm m. done m;
  chown = λ s uid gid m. done m;
  link = λ s r m. done m;
  unlink = λ s r m. done m;
  revoke = λ s m.
      done (record m { keys = changed (λ k. record k { revoked = true }) (number_of s) m.keys });
  invalidate = λ s m. done m;
  clear = λ s m. done (record m { keys = [] });
  sleep = λ n m. m;
}

take-all : (room : ℕ) (p : List ℕ) → length p ≤ room → take room p ≡ p
take-all zero [] h = refl
take-all (suc n) [] h = refl
take-all zero (c ∷ p) h = absurd (omega arith)
take-all (suc n) (c ∷ p) h = ap (λ q. c ∷ q) (take-all n p (omega arith))

read_held-IsReader :
    (h : Serial → Store → Result (List ℕ)) → IsReader h (λ s room m. read_held (h s m) room)
read_held-IsReader h = record {
  refused = λ k room s e. ap (λ r. read_held r room) e;
  fits = λ k room s {p} e short.
      ap (λ r. read_held r room) e ∙ ap (λ q. ok (length p, q)) (take-all room p short);
  exceeds = λ k room s {p} e long. (take room p, ap (λ r. read_held r room) e);
}

pub in_memory-IsReader : IsReader held in_memory.read
in_memory-IsReader = read_held-IsReader held

pub described_in-IsReader : IsReader described_in in_memory.describe
described_in-IsReader = read_held-IsReader described_in

ok-injective : {A : Type 0} {a b : A} → ok a ≡ ok b → a ≡ b
ok-injective e = cc

added-held :
    (type desc payload : List ℕ) (ring : Serial) (m : Store)
    → held (id (m.next + 4)) (add type desc payload ring m).1 ≡ ok payload
added-held type desc payload ring m = ground arith

pub in_memory-Keeps : Keeps in_memory held
in_memory-Keeps = record {
  reads = in_memory-IsReader;
  kept = λ type desc payload ring s e.
      subst (λ k. held (id k) (add type desc payload ring s).1 ≡ ok payload) (ok-injective e)
        (added-held type desc payload ring s);
}
