-- ===== src/Notifiers/Panic/Contents.antt =====
-- What the buffer of the crash dump holds.
use linux_kernel_prog.Prelude.{
  ℕ, zero, suc, ◌+◌, ◌-◌, ◌≤◌, ◌<◌, ◌≡◌, refl, List, [], ◌∷◌, ◌++◌, arith, take, length, get_or,
  leb, ltb, if◌then◌else◌, ◌&&◌, length-take, length-append, min, Bool-cases, inl, inr, sym, ◌∙◌,
}
use mathlib.Core.Path.{subst}
use mathlib.Core.List.{append-nil, append_assoc}
use linux_kernel_prog.Vm.Pagewalk.Kernelmem.{strcpy}
use linux_kernel_prog.Notifiers.Panic.{Line, Dump, vsnprintf, crash_dump_append, append_all}

get_or-take :
    (n : ℕ) (t : List ℕ) (i : ℕ) → get_or (take n t) i 0 ≡ (if ltb i n then get_or t i 0 else 0)
get_or-take zero t i = ground arith
get_or-take (suc n) [] i = ground arith
get_or-take (suc n) (c ∷ t) zero = ground arith
get_or-take (suc n) (c ∷ t) (suc i) = ground (arith, get_or-take n t i)

get_or-append :
    (t u : List ℕ) (i : ℕ)
    → get_or (t ++ u) i 0 ≡ (if ltb i (length t) then get_or t i 0 else get_or u (i - length t) 0)
get_or-append [] u i = ground arith
get_or-append (c ∷ t) u zero = ground arith
get_or-append (c ∷ t) u (suc i) = ground (arith, get_or-append t u i)

get_or-beyond : (t : List ℕ) (i : ℕ) → length t ≤ i → get_or t i 0 ≡ 0
get_or-beyond [] i h = refl
get_or-beyond (c ∷ t) zero h = absurd (omega arith)
get_or-beyond (c ∷ t) (suc i) h = get_or-beyond t i (omega arith)

-- Every byte after the copy of a string.
strcpy-at :
    (t : List ℕ) (p : ℕ) (mem : ℕ → ℕ) (a : ℕ)
    → strcpy t p mem a ≡ (if leb p a && leb a (p + length t) then get_or t (a - p) 0 else mem a)
unfolding strcpy
strcpy-at [] p mem a = ground arith
strcpy-at (c ∷ t) p mem a = elim (Bool-cases (ltb p a)) [
  | inl e ↦
      let shift : a - p ≡ suc (a - (p + 1)) = ground arith in
      rw (shift) (ground (arith, strcpy-at t (p + 1) mem a))
  | inr e ↦ ground (arith, strcpy-at t (p + 1) mem a)
]

-- The buffer holds a text as far as it has room, and zeros behind it; the offset is the text's
-- length as long as it is inside of the buffer.
pub record Holds (t : List ℕ) (d : Dump) : Type 0 where
  pub bytes : (i : ℕ) → i < 4096 → d.crash_dump_buffer i ≡ get_or (take 4095 t) i 0
  pub offset : min d.crash_dump_offset 4095 ≡ min (length t) 4095

abbrev pub texts : (Line → List ℕ) → List Line → List ℕ
texts format [] = []
texts format (l ∷ ls) = format l ++ texts format ls

-- Outside of the buffer nothing is written.
abbrev pub Same : Dump → Dump → Type 0
Same d d' = (i : ℕ) → 4096 ≤ i → d'.crash_dump_buffer i ≡ d.crash_dump_buffer i

-- A text that fills the buffer hides what is behind it.
full-take :
    (t u : List ℕ) (i : ℕ)
    → 4095 ≤ length t
    → get_or (take 4095 (t ++ u)) i 0 ≡ get_or (take 4095 t) i 0
full-take t u i h =
    rw (get_or-take 4095 (t ++ u) i, get_or-take 4095 t i, get_or-append t u i) (ground arith)

-- A text that does not is followed by what there is room for.
joined-take :
    (t u : List ℕ) (i : ℕ)
    → length t < 4095
    → get_or (take 4095 (t ++ u)) i 0 ≡ (
        if ltb i (length t)
        then get_or t i 0
        else get_or (take (4095 - length t) u) (i - length t) 0)
joined-take t u i h =
    rw
      (
        get_or-take 4095 (t ++ u) i,
        get_or-append t u i,
        get_or-take (4095 - length t) u (i - length t),
      )
      (ground arith)

-- Two texts one behind the other: the character `x` of the second or `y` of the first.
choose :
    (n m i x y : ℕ)
    → n < 4095
    → (n + m ≤ i → x ≡ 0)
    → (n ≤ i → y ≡ 0)
    → (if leb n i && leb i (n + m) then x else (if ltb i 4095 then y else 0))
      ≡ (if ltb i n then y else x)
choose n m i x y lt second first = ground arith

-- `vsnprintf` behind the text that the buffer holds so far.
vsnprintf-get :
    (t u : List ℕ) (mem : ℕ → ℕ) (i : ℕ)
    → length t < 4095
    → mem i ≡ get_or (take 4095 t) i 0
    → (vsnprintf (length t) (4096 - length t) u mem).0 i ≡ get_or (take 4095 (t ++ u)) i 0
unfolding vsnprintf
vsnprintf-get t u mem i lt h =
    let room : 4096 - length t ≡ suc (4095 - length t) = omega arith in
    rw
      (
        room,
        strcpy-at (take (4095 - length t) u) (length t) mem i,
        joined-take t u i lt,
        h,
        get_or-take 4095 t i,
      )
      (choose (length t) (length (take (4095 - length t) u)) i
        (get_or (take (4095 - length t) u) (i - length t) 0) (get_or t i 0) lt
        (λ le. get_or-beyond (take (4095 - length t) u) (i - length t) (omega arith))
        (get_or-beyond t i))

vsnprintf-beyond :
    (p : ℕ) (u : List ℕ) (mem : ℕ → ℕ) (i : ℕ)
    → p < 4095
    → 4096 ≤ i
    → (vsnprintf p (4096 - p) u mem).0 i ≡ mem i
unfolding vsnprintf
vsnprintf-beyond p u mem i lt h =
    let room : 4096 - p ≡ suc (4095 - p) = omega arith in
    rw (room, strcpy-at (take (4095 - p) u) p mem i) (ground (arith, length-take (4095 - p) u))

vsnprintf-len : (p n : ℕ) (u : List ℕ) (mem : ℕ → ℕ) → (vsnprintf p n u mem).1 ≡ length u
unfolding vsnprintf
vsnprintf-len p zero u mem = refl
vsnprintf-len p (suc n) u mem = refl

module _ (format : Line → List ℕ) where
  append-Holds :
      (t : List ℕ) (l : Line) (d : Dump)
      → Holds t d
      → Holds (t ++ format l) (crash_dump_append format l d)
  unfolding crash_dump_append
  append-Holds t l d h = elim (Bool-cases (leb 4095 d.crash_dump_offset)) [
    | inl e ↦
        let full : 4095 ≤ length t = ground (arith, h.offset) in
        rw (crash_dump_append, e)
          (record {
            bytes = λ i lt. h.bytes i lt ∙ sym (full-take t (format l) i full);
            offset = omega (arith, h.offset, length-append t (format l));
          })
    | inr e ↦
        let same : d.crash_dump_offset ≡ length t = ground (arith, h.offset) in
        let lt : length t < 4095 = ground (arith, h.offset) in
        rw (crash_dump_append, e)
          (record {
            bytes = λ i below.
                rw same (vsnprintf-get t (format l) d.crash_dump_buffer i lt (h.bytes i below));
            offset = ground (
              arith,
              length-append t (format l),
              vsnprintf-len d.crash_dump_offset (4096 - d.crash_dump_offset) (format l)
                  d.crash_dump_buffer,
            );
          })
  ]

  append-Same : (l : Line) (d : Dump) → Same d (crash_dump_append format l d)
  unfolding crash_dump_append
  append-Same l d i h = elim (Bool-cases (leb 4095 d.crash_dump_offset)) [
    | inl e ↦ rw (crash_dump_append, e)
    | inr e ↦
        rw (crash_dump_append, e)
          (vsnprintf-beyond d.crash_dump_offset (format l) d.crash_dump_buffer i (ground arith) h)
  ]

  pub append_all-Holds :
      (t : List ℕ) (ls : List Line) (d : Dump)
      → Holds t d
      → Holds (t ++ texts format ls) (append_all format ls d)
  unfolding append_all
  append_all-Holds t [] d h = rw append-nil h
  append_all-Holds t (l ∷ ls) d h =
      subst (λ u. Holds u (append_all format (l ∷ ls) d))
        (append_assoc t (format l) (texts format ls))
        (append_all-Holds (t ++ format l) ls (crash_dump_append format l d) (append-Holds t l d h))

  pub append_all-Same : (ls : List Line) (d : Dump) → Same d (append_all format ls d)
  unfolding append_all
  append_all-Same [] d i h = refl
  append_all-Same (l ∷ ls) d i h =
      append_all-Same ls (crash_dump_append format l d) i h ∙ append-Same l d i h
