-- ===== src/Sync/Books/Lookup.antt =====
-- `Is_borrowed` of list_rcu.c against the catalog.
use linux_kernel_prog.Prelude.{
  ℕ, suc, ◌≤◌, ◌≡◌, refl, Bool, true, none, some, List, [], ◌∷◌, inl, inr, sym, ◌∙◌, ap, Bool-cases,
  arith, ◌==◌, if◌then◌else◌,
}
use linux_kernel_prog.Sync.Books.{Book, Node, Shelf, find_book, borrow_book, is_borrowed}
use linux_kernel_prog.Sync.Books.Memory.{IsOwned}
use linux_kernel_prog.Sync.Books.Catalog.{titles, first, mark, is_available, borrow_book-mark}

-- How many books have an id.
unfoldable pub copies : ℕ → List Book → ℕ
copies id [] = 0
copies id (b ∷ bs) = if b.id == id then suc (copies id bs) else copies id bs

-- Where no book has the id, `Is_borrowed` returns what its variable `ret` held before it was set:
-- the result is whatever the stack contained.
pub is_borrowed-none :
    (ret id : ℕ) (ns : List Node) → find_book id ns ≡ none → is_borrowed ret id ns ≡ ret
unfolding is_borrowed find_book
is_borrowed-none ret id [] h = refl
is_borrowed-none ret id (n ∷ ns) h = elim (Bool-cases (n.book.id == id)) [
  | inl e ↦ ground arith
  | inr e ↦ rw e (is_borrowed-none ret id ns (ground arith))
]

is_borrowed-no_copy :
    (ret id : ℕ) (ns : List Node) → copies id (titles ns) ≡ 0 → is_borrowed ret id ns ≡ ret
unfolding is_borrowed copies titles
is_borrowed-no_copy ret id [] h = refl
is_borrowed-no_copy ret id (n ∷ ns) h = elim (Bool-cases (n.book.id == id)) [
  | inl e ↦ ground arith
  | inr e ↦ rw e (is_borrowed-no_copy ret id ns (ground arith))
]

is_borrowed-first :
    (ret id : ℕ) (ns : List Node) {b : Book}
    → copies id (titles ns) ≤ 1
    → first id (titles ns) ≡ some b
    → is_borrowed ret id ns ≡ b.borrow
unfolding is_borrowed copies titles first
is_borrowed-first ret id [] k h = ground arith
is_borrowed-first ret id (n ∷ ns) {b} k h = elim (Bool-cases (n.book.id == id)) [
  | inl e ↦ rw e (is_borrowed-no_copy n.book.borrow id ns (ground arith) ∙ ground arith)
  | inr e ↦ rw e (is_borrowed-first ret id ns {b = b} (ground arith) (ground arith))
]

copies-mark : (id v : ℕ) (bs : List Book) → copies id (mark id v bs) ≡ copies id bs
unfolding copies mark
copies-mark id v [] = refl
copies-mark id v (b ∷ bs) = ground (arith, copies-mark id v bs)

first-mark :
    (id v : ℕ) (bs : List Book)
    → is_available id bs ≡ true
    → (b : Book) × (first id (mark id v bs) ≡ some b) × (b.borrow ≡ v)
unfolding first mark
first-mark id v [] h = ground arith
first-mark id v (b ∷ bs) h = elim (Bool-cases (b.id == id)) [
  | inl e ↦ (record b { borrow = v }, ground arith, refl)
  | inr e ↦ let (c, here, is) = first-mark id v bs (ground arith) in (c, ground arith, is)
]

-- In a state whose nodes have one owner each, and where no two books share the id, `Is_borrowed`
-- reports 1 after a `Borrow_book` that succeeded, whatever its variable held before.
pub is_borrowed-borrow :
    (id p ret : ℕ) (async : Bool) (s : Shelf)
    → IsOwned s
    → copies id (titles s.books) ≤ 1
    → (borrow_book (some p) id async s).0 ≡ true
    → is_borrowed ret id (borrow_book (some p) id async s).1.books ≡ 1
is_borrowed-borrow id p ret async s o k h =
    let (got, view) = borrow_book-mark id s o p async in
    let free : is_available id (titles s.books) ≡ true = sym got ∙ h in
    let (b, here, is) = first-mark id 1 (titles s.books) free in
    let marked = rw free at view in
    is_borrowed-first ret id _ (rw (marked, copies-mark) k) (ap (first id) marked ∙ here) ∙ is
