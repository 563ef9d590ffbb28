-- ===== src/Sync/Pair/Consistent.antt =====
-- What the reader of kthread_semlck.c and kthread_spin.c can see.
use linux_kernel_prog.Prelude.{
  ℕ, ◌+◌, ◌≡◌, ◌≤◌, ◌⊎◌, ap, sym, inl, inr, refl, Bool, true, false, arith, ◌||◌,
}
use mathlib.Core.Path.{subst}
use linux_kernel_prog.Sync.Pair.{
  Writer, Reader, PrivData, System, started, Step, Reach, start, later, write_lock, write_a,
  write_b, write_unlock, write_interrupted, write_a_freed, write_b_freed, read_lock, read_a_freed,
  read_b_freed, read_unlock, read_interrupted, exit, lock_freed,
}

abbrev pub writes : Writer → ℕ
writes Writer.outside = 0
writes Writer.locked = 1
writes Writer.wrote_a = 1
writes Writer.wrote_b = 1
writes Writer.ended = 0

abbrev pub reads : Reader → ℕ
reads Reader.outside = 0
reads Reader.locked = 1
reads (Reader.read_a x) = 1
reads (Reader.read_b x y) = 1
reads Reader.ended = 0

abbrev pub bit : Bool → ℕ
bit true = 1
bit false = 0

-- Both fields as they were at first, or both as they are written.
abbrev pub Whole : ℕ → ℕ → Type 0
Whole x y = ((x ≡ 0) × (y ≡ 0)) ⊎ ((x ≡ 10) × (y ≡ 20))

-- The fields by the writer's position.
abbrev pub Written : Writer → PrivData → Type 0
Written Writer.outside p = (p.a ≡ 0) × (p.b ≡ 0)
Written Writer.locked p = (p.a ≡ 0) × (p.b ≡ 0)
Written Writer.wrote_a p = (p.a ≡ 10) × (p.b ≡ 0)
Written Writer.wrote_b p = (p.a ≡ 10) × (p.b ≡ 20)
Written Writer.ended p = Whole p.a p.b

-- What the reader has read is what the fields hold.
abbrev pub Current : Reader → PrivData → Type 0
Current Reader.outside p = Unit
Current Reader.locked p = Unit
Current (Reader.read_a x) p = x ≡ p.a
Current (Reader.read_b x y) p = (x ≡ p.a) × (y ≡ p.b)
Current Reader.ended p = Unit

bit-le : (b : Bool) → bit b ≤ 1
bit-le true = omega arith
bit-le false = omega arith

pub record Inv (s : System) : Type 0 where
  pub exclusive : writes s.writer + reads s.reader ≡ bit s.held
  pub written : Written s.writer s.p
  pub current : Current s.reader s.p

-- Without the lock, the writer has written all or nothing.
Written-Whole : (w : Writer) (p : PrivData) → writes w ≡ 0 → Written w p → Whole p.a p.b
Written-Whole Writer.outside p e h = inl h
Written-Whole Writer.locked p e h = absurd (omega arith)
Written-Whole Writer.wrote_a p e h = absurd (omega arith)
Written-Whole Writer.wrote_b p e h = absurd (omega arith)
Written-Whole Writer.ended p e h = h

-- Without the lock, the reader has nothing that could change.
Current-other : (r : Reader) (p q : PrivData) → reads r ≡ 0 → Current r p → Current r q
Current-other Reader.outside p q e h = h
Current-other Reader.locked p q e h = absurd (omega arith)
Current-other (Reader.read_a x) p q e h = absurd (omega arith)
Current-other (Reader.read_b x y) p q e h = absurd (omega arith)
Current-other Reader.ended p q e h = h

or_false : (a b : Bool) → (a || b) ≡ false → (a ≡ false) × (b ≡ false)
or_false false b e = (refl, e)
or_false true b e = cc

-- A lock that is taken while it is not in freed memory was free.
was_free :
    {held : Bool} (used freed : Bool)
    → (held ≡ false) ⊎ (freed ≡ true)
    → (used || freed) ≡ false
    → held ≡ false
was_free used freed (inl e) unused = e
was_free used freed (inr e) unused = let off = or_false used freed unused in cc (e, off.1)

-- The invariant as long as no freed memory has been used.
abbrev SoFar : System → Type 0
SoFar s = s.used_freed ≡ false → Inv s

Step-Inv : {in_structure : Bool} {s t : System} → Step in_structure s t → SoFar s → SoFar t
Step-Inv {in_structure} {s} (write_lock at free) so unused =
    let h = so (or_false _ _ unused).0 in
    let w = subst (λ w. Written w s.p) at h.written in
    record {
      exclusive = omega (
        arith,
        ap writes at,
        ap bit (was_free s.used_freed (lock_freed in_structure s) free unused),
        h.exclusive,
      );
      written = w;
      current = h.current;
    }
Step-Inv {s = s} (write_a at live) so unused =
    let h = so unused in
    let w = subst (λ w. Written w s.p) at h.written in
    let none_reads : reads s.reader ≡ 0 = omega (arith, ap writes at, bit-le s.held, h.exclusive) in
    record {
      exclusive = omega (arith, ap writes at, h.exclusive);
      written = (refl, w.1);
      current = Current-other s.reader s.p (record s.p { a = 10 }) none_reads h.current;
    }
Step-Inv {s = s} (write_b at live) so unused =
    let h = so unused in
    let w = subst (λ w. Written w s.p) at h.written in
    let none_reads : reads s.reader ≡ 0 = omega (arith, ap writes at, bit-le s.held, h.exclusive) in
    record {
      exclusive = omega (arith, ap writes at, h.exclusive);
      written = (w.0, refl);
      current = Current-other s.reader s.p (record s.p { b = 20 }) none_reads h.current;
    }
Step-Inv {s = s} (write_unlock at) so unused =
    let h = so (or_false _ _ unused).0 in
    let w = subst (λ w. Written w s.p) at h.written in
    record {
      exclusive = omega (arith, ap writes at, bit-le s.held, h.exclusive);
      written = inr w;
      current = h.current;
    }
Step-Inv {s = s} (write_interrupted at) so unused =
    let h = so unused in
    let w = subst (λ w. Written w s.p) at h.written in
    record {
      exclusive = omega (arith, ap writes at, h.exclusive);
      written = inl w;
      current = h.current;
    }
Step-Inv (write_a_freed at dead) so unused = cc
Step-Inv (write_b_freed at dead) so unused = cc
Step-Inv (read_a_freed x at dead) so unused = cc
Step-Inv (read_b_freed y at dead) so unused = cc
Step-Inv {in_structure} {s} (read_lock at free) so unused =
    let h = so (or_false _ _ unused).0 in
    record {
      exclusive = omega (
        arith,
        ap reads at,
        ap bit (was_free s.used_freed (lock_freed in_structure s) free unused),
        h.exclusive,
      );
      written = h.written;
      current = record {};
    }
Step-Inv {s = s} (Step.read_a at live) so unused =
    let h = so unused in
    record {
      exclusive = omega (arith, ap reads at, h.exclusive);
      written = h.written;
      current = refl;
    }
Step-Inv {s = s} (Step.read_b {x} at live) so unused =
    let h = so unused in
    let c = subst (λ r. Current r s.p) at h.current in
    record {
      exclusive = omega (arith, ap reads at, h.exclusive);
      written = h.written;
      current = (c, refl);
    }
Step-Inv {s = s} (read_unlock {x} {y} at) so unused =
    let h = so (or_false _ _ unused).0 in
    record {
      exclusive = omega (arith, ap reads at, bit-le s.held, h.exclusive);
      written = h.written;
      current = record {};
    }
Step-Inv {s = s} (read_interrupted at) so unused =
    let h = so unused in
    record {
      exclusive = omega (arith, ap reads at, h.exclusive);
      written = h.written;
      current = record {};
    }
Step-Inv (exit live) so unused =
    let h = so unused in
    record { exclusive = h.exclusive; written = h.written; current = h.current }

Reach-Inv : {in_structure : Bool} {s : System} → Reach in_structure started s → SoFar s
Reach-Inv start unused = record { exclusive = refl; written = (refl, refl); current = record {} }
Reach-Inv (later r st) unused = Step-Inv st (Reach-Inv r) unused

-- In every interleaving of the writer, the reader and an unload, with the lock in the structure or
-- not and with threads interrupted or not: as long as no thread has used the structure behind its
-- `kfree`, the reader has never seen one field written and the other not.
pub pair-Whole :
    {in_structure : Bool} {s : System} (x y : ℕ)
    → Reach in_structure started s
    → s.used_freed ≡ false
    → s.reader ≡ Reader.read_b x y
    → Whole x y
pair-Whole {s = s} x y r unused at =
    let h = Reach-Inv r unused in
    let c = subst (λ q. Current q s.p) at h.current in
    let alone : writes s.writer ≡ 0 = omega (arith, ap reads at, bit-le s.held, h.exclusive) in
    subst (λ z. Whole z y) (sym c.0)
      (subst (λ z. Whole s.p.a z) (sym c.1) (Written-Whole s.writer s.p alone h.written))
