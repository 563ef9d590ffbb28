-- ===== src/Vm/Capitalize.antt =====
-- The loop at the end of every page table walk: lower-case letters of mapped memory become capitals,
-- for at most the length of the test string and not past a NUL.
use linux_kernel_prog.Prelude.{
  ℕ, zero, suc, ◌+◌, ◌-◌, ◌≤◌, ◌≡◌, refl, Bool, ◌&&◌, arith, ltb, leb, ◌==◌, if◌then◌else◌,
  Bool-cases, inl, inr, Option, none, some,
}
use linux_kernel_prog.Vm.Mmu.{Machine}

abbrev pub store : (ℕ → ℕ) → ℕ → ℕ → ℕ → ℕ
store mem p v a = if a == p then v else mem a

abbrev pub is_lower : ℕ → Bool
is_lower c = leb b'a' c && leb c b'z'

-- `for (i = 0; i < rounds && p[i]; i++)`
unfoldable pub capitalize : (rounds p : ℕ) → (ℕ → ℕ) → ℕ → ℕ
capitalize zero p mem = mem
capitalize (suc k) p mem =
    let rest =
      capitalize k (p + 1) (if is_lower (mem p) then store mem p (mem p - b'a' + b'A') else mem) in
    if mem p == 0 then mem else rest

-- The bytes of a page are changed at the address that the page's number gives, if there is a page.
unfoldable pub modify_page : (rounds : ℕ) → Option ℕ → (ℕ → ℕ) → Machine → Machine
modify_page rounds none address s = s
modify_page rounds (some page) address s = record s { mem = capitalize rounds (address page) s.mem }

-- The length of the string at `p`, up to `rounds`.
unfoldable pub strnlen : (rounds p : ℕ) → (ℕ → ℕ) → ℕ
strnlen zero p mem = 0
strnlen (suc k) p mem = if mem p == 0 then 0 else suc (strnlen k (p + 1) mem)

abbrev pub upper : ℕ → ℕ
upper c = if is_lower c then c - b'a' + b'A' else c

-- Only the zero bytes matter.
pub strnlen-cong :
    (k p : ℕ) (f g : ℕ → ℕ)
    → ((a : ℕ) → p ≤ a → (f a == 0) ≡ (g a == 0))
    → strnlen k p f ≡ strnlen k p g
unfolding strnlen
strnlen-cong zero p f g h = refl
strnlen-cong (suc k) p f g h =
    ground (arith, h p, strnlen-cong k (p + 1) f g (λ a le. h a (omega arith)))

-- One round.
abbrev round : ℕ → (ℕ → ℕ) → ℕ → ℕ
round p mem = if is_lower (mem p) then store mem p (mem p - b'a' + b'A') else mem

round-upper :
    (p : ℕ) (mem : ℕ → ℕ) (a : ℕ) → round p mem a ≡ (if a == p then upper (mem a) else mem a)
round-upper p mem a = elim (Bool-cases (is_lower (mem p))) [
  | inl e ↦ rw e (ground arith)
  | inr e ↦ rw e (ground arith)
]

-- The loop replaces exactly the characters of the string at `p`, up to the number of rounds, by
-- their capitals, and changes no other byte.
pub capitalize-upper :
    (k p : ℕ) (mem : ℕ → ℕ) (a : ℕ)
    → capitalize k p mem a
      ≡ (if leb p a && ltb a (p + strnlen k p mem) then upper (mem a) else mem a)
unfolding capitalize strnlen
capitalize-upper zero p mem a = ground arith
capitalize-upper (suc k) p mem a = elim (Bool-cases (mem p == 0)) [
  | inl e ↦ rw e (ground arith)
  | inr e ↦
      let same =
        strnlen-cong k (p + 1) (round p mem) mem (λ b le. ground (arith, round-upper p mem b)) in
      rw (e, capitalize-upper k (p + 1) (round p mem) a, same, round-upper p mem a) (ground arith)
]

-- A second run over the same string changes nothing more.
pub capitalize_idem :
    (k p : ℕ) (mem : ℕ → ℕ) (a : ℕ) → capitalize k p (capitalize k p mem) a ≡ capitalize k p mem a
capitalize_idem k p mem a =
    let same =
      strnlen-cong k p (capitalize k p mem) mem
        (λ b le. ground (arith, capitalize-upper k p mem b)) in
    rw (capitalize-upper k p (capitalize k p mem) a, same, capitalize-upper k p mem a)
      (ground arith)

pub strnlen-le : (k p : ℕ) (mem : ℕ → ℕ) → strnlen k p mem ≤ k
unfolding strnlen
strnlen-le zero p mem = omega arith
strnlen-le (suc k) p mem = ground (arith, strnlen-le k (p + 1) mem)
