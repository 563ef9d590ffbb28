-- ===== src/Vm/Userwalk/Bounds.antt =====
-- Offsets and bounds of the walk in userwalk.c.
use native.Mathlib.Nat.{div-add-mod', mul-add-mod_self_right}
use linux_kernel_prog.Prelude.{
  ℕ, zero, suc, ◌+◌, ◌-◌, ◌*◌, ◌/◌, ◌%◌, ◌≤◌, ◌<◌, ◌≡◌, ◌≢◌, refl, true, Option, none, some, arith,
  inl, inr, ap, sym, ◌∙◌,
}
use mathlib.Core.Path.{subst}
use linux_kernel_prog.Vm.Mmu.{Mmu, Machine, physical}
use linux_kernel_prog.Vm.Capitalize.{strnlen, capitalize-upper, strnlen-le, is_lower}
use linux_kernel_prog.Vm.Userwalk.{
  test_length, huge_address, small_address, walk_userspace_page_table,
}
use linux_kernel_prog.Vm.Userwalk.Translation.{Maps, gigabyte, huge, small}
use linux_kernel_prog.Vm.Userwalk.Walk.{written, walk-cases, walk-Maps}

-- A remainder by a multiple keeps the remainder.
pub mod-mod_multiple : (k p v : ℕ) → v % (k * p) % p ≡ v % p
mod-mod_multiple k p v =
    sym (mul-add-mod_self_right (v / (k * p) * k) p (v % (k * p)))
    ∙ ap (λ t. t % p) (omega (arith, div-add-mod' v (k * p)))

pub physical-mod : (k p size e v : ℕ) → size ≡ k * p → physical size e v % p ≡ v % p
unfolding physical
physical-mod k p size e v h = rw h (
    ap (λ t. t % p) (omega arith)
    ∙ mul-add-mod_self_right (e / (k * p) * k) p (v % (k * p))
    ∙ mod-mod_multiple k p v)

-- The sizes are whole numbers of each other, and frames lie one after another in kernel memory.
pub record IsRegular (mmu : Mmu) : Type 0 where
  pub pmd_pages : ℕ
  pub pud_pmds : ℕ
  pub pmd_size : mmu.pmd_size ≡ pmd_pages * mmu.page_size
  pub pud_size : mmu.pud_size ≡ pud_pmds * mmu.pmd_size
  pub linear :
      (page n : ℕ) → mmu.page_address (page + n) ≡ mmu.page_address page + n * mmu.page_size

module _ (mmu : Mmu) (regular : IsRegular mmu) (v : ℕ) where
  open regular use {pmd_pages, pud_pmds, pmd_size, pud_size, linear}

  -- The number that the walk prints has the offset of the address in the page, at each of the three page
  -- sizes.
  pub Maps-offset :
      {mm p : ℕ} {a : Option ℕ} → Maps mmu mm v p a → p % mmu.page_size ≡ v % mmu.page_size
  Maps-offset (gigabyte h leaf) =
      physical-mod (pud_pmds * pmd_pages) mmu.page_size mmu.pud_size _ v
        (rw pud_size (rw pmd_size (omega arith)))
  Maps-offset (huge h leaf) = physical-mod pmd_pages mmu.page_size mmu.pmd_size _ v pmd_size
  Maps-offset (small h) = physical-mod 1 mmu.page_size mmu.page_size _ v (omega arith)

  -- In a 2 MB page the walk opens the byte at the address's offset in that page, although it finds
  -- it through the number of a 4 KB page and an offset in that one.
  pub huge_address-offset :
      (page : ℕ) → huge_address mmu page v ≡ mmu.page_address page + v % mmu.pmd_size
  unfolding huge_address
  huge_address-offset page =
      let same : v % mmu.pmd_size % mmu.page_size ≡ v % mmu.page_size =
        subst (λ z. v % z % mmu.page_size ≡ v % mmu.page_size) (sym pmd_size)
          (mod-mod_multiple pmd_pages mmu.page_size v) in
      omega (
        arith,
        linear page (v % mmu.pmd_size / mmu.page_size),
        div-add-mod' (v % mmu.pmd_size) mmu.page_size,
        same,
      )

-- The memory after a walk that opened the byte at `a`.
written-bounds :
    (a b : ℕ) (mem : ℕ → ℕ) → written (some a) mem b ≢ mem b → (a ≤ b) × (b < a + test_length)
written-bounds a b mem h =
    ground (arith, capitalize-upper test_length a mem b, strnlen-le test_length a mem)

written-Maps :
    {mmu : Mmu} {mm v p b : ℕ} (a : Option ℕ) (mem : ℕ → ℕ)
    → Maps mmu mm v p a
    → written a mem b ≢ mem b
    → (q : ℕ) × (c : ℕ) × Maps mmu mm v q (some c) × (c ≤ b) × (b < c + test_length)
written-Maps none mem m h = absurd (h refl)
written-Maps {p} {b} (some a) mem m h =
    let (low, high) = written-bounds a b mem h in (p, a, m, low, high)

strnlen-lower :
    (k p : ℕ) (mem : ℕ → ℕ)
    → ((i : ℕ) → i < k → is_lower (mem (p + i)) ≡ true)
    → strnlen k p mem ≡ k
unfolding strnlen
strnlen-lower zero p mem h = refl
strnlen-lower (suc k) p mem h =
    let first : is_lower (mem p) ≡ true =
      subst (λ q. is_lower (mem q) ≡ true) (omega arith) (h 0 (omega arith)) in
    let rest =
      strnlen-lower k (p + 1) mem
        (λ i lt. subst (λ q. is_lower (mem q) ≡ true) (omega arith) (h (i + 1) (omega arith))) in
    ground arith

written-lower :
    (a d : ℕ) (mem : ℕ → ℕ)
    → ((i : ℕ) → i < test_length → is_lower (mem (a + i)) ≡ true)
    → d < test_length
    → written (some a) mem (a + d) ≢ mem (a + d)
written-lower a d mem h lt =
    let all = strnlen-lower test_length a mem h in
    ground (arith, capitalize-upper test_length a mem (a + d), h d)

module _ (mmu : Mmu) (mm v : ℕ) where
  -- A walk changes at most nine bytes, those from the mapped byte on, and none at all where it does
  -- not open the page.
  pub walk-bounds :
      (s : Machine) (b : ℕ)
      → (walk_userspace_page_table mmu (some mm) v s).1.mem b ≢ s.mem b
      → (p : ℕ) × (a : ℕ) × Maps mmu mm v p (some a) × (a ≤ b) × (b < a + test_length)
  walk-bounds s b changed = elim (walk-cases mmu mm v s) [
    | inl (p, a, m, e) ↦ written-Maps a s.mem m (λ same. changed (ap (λ r. r.1.mem b) e ∙ same))
    | inr (_, e) ↦ absurd (changed (ap (λ r. r.1.mem b) e))
  ]

  -- Where a mapped string of nine lower-case letters begins less than nine bytes before the end of
  -- its 4 KB page, the walk changes the first byte behind the page, which need not belong to the
  -- task.
  pub walk-overrun :
      (s : Machine) (page : ℕ) {p : ℕ}
      → Maps mmu mm v p (some (small_address mmu page v))
      → v % mmu.page_size < mmu.page_size
      → mmu.page_size < v % mmu.page_size + test_length
      → ((i : ℕ) → i < test_length → is_lower (s.mem (small_address mmu page v + i)) ≡ true)
      → (walk_userspace_page_table mmu (some mm) v s).1.mem (mmu.page_address page + mmu.page_size)
        ≢ s.mem (mmu.page_address page + mmu.page_size)
  unfolding small_address
  walk-overrun s page m inside short lower same =
      let a = small_address mmu page v in
      let d = mmu.page_size - v % mmu.page_size in
      let here : a + d ≡ mmu.page_address page + mmu.page_size = omega arith in
      written-lower a d s.mem lower (omega arith) (
        subst (λ b. written (some a) s.mem b ≡ s.mem b) (sym here)
          (ap (λ r. r.1.mem (mmu.page_address page + mmu.page_size)) (sym (walk-Maps mmu mm v s m))
            ∙ same))
