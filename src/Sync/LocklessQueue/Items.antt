-- ===== src/Sync/LocklessQueue/Items.antt =====
-- The items of the producers of lockless_queue.c, told apart by their ids.
use linux_kernel_prog.Prelude.{
  ℕ, zero, suc, ◌+◌, ◌*◌, ◌/◌, ◌<◌, ◌≡◌, refl, inl, inr, true, false, List, [], ◌∷◌, ◌++◌, arith,
  if◌then◌else◌, ◌==◌, Bool-cases,
}
use mathlib.Core.List.{append-nil}
use linux_kernel_prog.Sync.LocklessQueue.{
  DataItem, Slot, first, second, put_at, id_of, item, Producer,
}

-- The items of a producer, which its ids tell apart from the other's.
abbrev pub from : Slot → List DataItem → List DataItem
from w [] = []
from w (x ∷ xs) = if x.id / 1000 == id_of w then x ∷ from w xs else from w xs

-- The items of its first rounds.
unfoldable pub made : Slot → (rounds : ℕ) → List DataItem
made w zero = []
made w (suc n) = made w n ++ item w n ∷ []

abbrev pub total : (Slot → ℕ) → ℕ
total f = f first + f second

from-append : (w : Slot) (xs ys : List DataItem) → from w (xs ++ ys) ≡ from w xs ++ from w ys
from-append w [] ys = refl
from-append w (x ∷ xs) ys = elim (Bool-cases (x.id / 1000 == id_of w)) [
  | inl e ↦ rw (e, from-append w xs ys)
  | inr e ↦ rw (e, from-append w xs ys)
]

from-own : (w : Slot) (i : ℕ) → i < 20 → from w (item w i ∷ []) ≡ item w i ∷ []
unfolding item
from-own first i h = let e : ((1 * 1000 + i) / 1000 == 1) ≡ true = ground arith in rw e
from-own second i h = let e : ((2 * 1000 + i) / 1000 == 2) ≡ true = ground arith in rw e

from_first-second : (i : ℕ) → i < 20 → from first (item second i ∷ []) ≡ []
unfolding item
from_first-second i h = let e : ((2 * 1000 + i) / 1000 == 1) ≡ false = ground arith in rw e

from_second-first : (i : ℕ) → i < 20 → from second (item first i ∷ []) ≡ []
unfolding item
from_second-first i h = let e : ((1 * 1000 + i) / 1000 == 2) ≡ false = ground arith in rw e

-- With an item more of a producer.
pub by_producer-item :
    (v w : Slot) (ps : Slot → Producer) (p : Producer) (xs : List DataItem)
    → (ps w).i < 20
    → p.i ≡ suc (ps w).i
    → from v xs ≡ made v (ps v).i
    → from v (xs ++ item w (ps w).i ∷ []) ≡ made v (put_at w p ps v).i
unfolding made
by_producer-item first first ps p xs room e h = rw (from-append, h, e, from-own first _ room)
by_producer-item first second ps p xs room e h =
    rw (from-append, h, from_first-second _ room, append-nil)
by_producer-item second first ps p xs room e h =
    rw (from-append, h, from_second-first _ room, append-nil)
by_producer-item second second ps p xs room e h = rw (from-append, h, e, from-own second _ room)

pub put_at-all :
    {A : Type 0} (P : A → Type 0) (w : Slot) (a : A) (f : Slot → A)
    → P a
    → ((v : Slot) → P (f v))
    → (v : Slot) → P (put_at w a f v)
put_at-all P first a f pa pf first = pa
put_at-all P first a f pa pf second = pf second
put_at-all P second a f pa pf first = pf first
put_at-all P second a f pa pf second = pa

pub total-put_at :
    {A : Type 0} (g : A → ℕ) (w : Slot) (a : A) (f : Slot → A)
    → total (λ v. g (put_at w a f v)) + g (f w) ≡ total (λ v. g (f v)) + g a
total-put_at g first a f = omega arith
total-put_at g second a f = omega arith

-- A write that keeps a number keeps the number everywhere.
pub put_at-keeps :
    {A : Type 0} (g : A → ℕ) (w : Slot) (a : A) (f : Slot → A)
    → g a ≡ g (f w)
    → (v : Slot) → g (put_at w a f v) ≡ g (f v)
put_at-keeps g first a f e first = e
put_at-keeps g first a f e second = refl
put_at-keeps g second a f e first = refl
put_at-keeps g second a f e second = e
