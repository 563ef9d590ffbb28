-- ===== src/Sync/Books/Catalog.antt =====
-- list_rcu.c against a catalog: a list of books with no addresses, no memory and no modes.
use linux_kernel_prog.Prelude.{
  ℕ, ◌≤◌, ◌≡◌, refl, Bool, true, false, Option, none, some, List, [], ◌∷◌, inl, inr, sym, ◌∙◌,
  Option-cases, Bool-cases, arith, ◌==◌, if◌then◌else◌, count,
}
use linux_kernel_prog.Sync.Books.{
  Book, Node, Shelf, find_book, replace_node, remove_node, kfree, retire, copy_node, swap_in,
  borrow_book, return_book, delete_book,
}
use linux_kernel_prog.Sync.Books.Memory.{addresses, IsOwned, find_book-count, borrow_book-IsOwned}

-- The abstract view of the list.
unfoldable pub titles : List Node → List Book
titles [] = []
titles (n ∷ ns) = n.book ∷ titles ns

-- The first book with an id.
unfoldable pub first : ℕ → List Book → Option Book
first id [] = none
first id (b ∷ bs) = if b.id == id then some b else first id bs

-- The first book with an id is marked as lent out (1) or as available (0).
unfoldable pub mark : ℕ → ℕ → List Book → List Book
mark id v [] = []
mark id v (b ∷ bs) = if b.id == id then record b { borrow = v } ∷ bs else b ∷ mark id v bs

unfoldable pub drop_first : ℕ → List Book → List Book
drop_first id [] = []
drop_first id (b ∷ bs) = if b.id == id then bs else b ∷ drop_first id bs

abbrev pub is_available : ℕ → List Book → Bool
is_available id bs = elim (first id bs) [ none ↦ false | some b ↦ b.borrow == 0 ]

abbrev pub is_lent : ℕ → List Book → Bool
is_lent id bs = elim (first id bs) [ none ↦ false | some b ↦ if b.borrow == 0 then false else true ]

find_book-first :
    (id : ℕ) (ns : List Node) {b : Node}
    → find_book id ns ≡ some b
    → first id (titles ns) ≡ some b.book
unfolding find_book titles first
find_book-first id [] h = ground arith
find_book-first id (n ∷ ns) {b} h = ground (arith, find_book-first id ns {b = b})

find_book-none : (id : ℕ) (ns : List Node) → find_book id ns ≡ none → first id (titles ns) ≡ none
unfolding find_book titles first
find_book-none id [] h = refl
find_book-none id (n ∷ ns) h = ground (arith, find_book-none id ns)

-- Addresses are distinct, so the node that is replaced is the one that was found.
titles-replace :
    (id p v : ℕ) (ns : List Node) {b : Node}
    → find_book id ns ≡ some b
    → count b.addr (addresses ns) ≤ 1
    → titles (replace_node b.addr (copy_node p v b) ns) ≡ mark id v (titles ns)
unfolding find_book titles replace_node mark addresses
titles-replace id p v [] h k = ground arith
titles-replace id p v (n ∷ ns) {b} h k =
    ground (arith, titles-replace id p v ns {b = b}, find_book-count id ns {b = b})

titles-remove :
    (id : ℕ) (ns : List Node) {b : Node}
    → find_book id ns ≡ some b
    → count b.addr (addresses ns) ≤ 1
    → titles (remove_node b.addr ns) ≡ drop_first id (titles ns)
unfolding find_book titles remove_node drop_first addresses
titles-remove id [] h k = ground arith
titles-remove id (n ∷ ns) {b} h k =
    ground (arith, titles-remove id ns {b = b}, find_book-count id ns {b = b})

drop_first-none : (id : ℕ) (bs : List Book) → first id bs ≡ none → drop_first id bs ≡ bs
unfolding first drop_first
drop_first-none id [] h = refl
drop_first-none id (b ∷ bs) h = ground (arith, drop_first-none id bs)

retire-books : (async : Bool) (a : ℕ) (s : Shelf) → (retire async a s).books ≡ s.books
unfolding retire kfree
retire-books true a s = refl
retire-books false a s = refl

module _ (id : ℕ) (s : Shelf) (o : IsOwned s) where
  addr-le_one : (a : ℕ) → count a (addresses s.books) ≤ 1
  addr-le_one a = omega (arith, o.owned a, o.once a)

  swap_in-mark :
      (p v : ℕ) (async : Bool) {b : Node}
      → find_book id s.books ≡ some b
      → titles (swap_in (some p) v async b s).1.books ≡ mark id v (titles s.books)
  unfolding swap_in
  swap_in-mark p v async {b} e =
      rw retire-books (titles-replace id p v s.books e (addr-le_one b.addr))

  -- In a state whose nodes have one owner each, while memory lasts, `Borrow_book` succeeds
  -- exactly if the first book with the id is available, and then marks that book and no other as
  -- lent out; a refused call changes no book.
  pub borrow_book-mark :
      (p : ℕ) (async : Bool)
      → ((borrow_book (some p) id async s).0 ≡ is_available id (titles s.books))
        × (titles (borrow_book (some p) id async s).1.books ≡ (
            if is_available id (titles s.books)
            then mark id 1 (titles s.books)
            else titles s.books))
  unfolding borrow_book
  borrow_book-mark p async = elim (Option-cases (find_book id s.books)) [
    | inl e ↦ rw (e, borrow_book, is_available, find_book-none id s.books e) (refl, refl)
    | inr (b, e) ↦
        rw (e, borrow_book, is_available, find_book-first id s.books e)
          (elim (Bool-cases (b.book.borrow == 0)) [
            | inl z ↦ rw z (refl, swap_in-mark p 1 async e)
            | inr z ↦ rw z (refl, refl)
          ])
  ]

  -- In a state whose nodes have one owner each, while memory lasts, `Return_book` succeeds
  -- exactly if the first book with the id is lent out, and then marks that book and no other as
  -- available; a refused call changes no book.
  pub return_book-mark :
      (p : ℕ) (async : Bool)
      → ((return_book (some p) id async s).0 ≡ is_lent id (titles s.books))
        × (titles (return_book (some p) id async s).1.books
            ≡ (if is_lent id (titles s.books) then mark id 0 (titles s.books) else titles s.books))
  unfolding return_book
  return_book-mark p async = elim (Option-cases (find_book id s.books)) [
    | inl e ↦ rw (e, return_book, is_lent, find_book-none id s.books e) (refl, refl)
    | inr (b, e) ↦
        rw (e, return_book, is_lent, find_book-first id s.books e)
          (elim (Bool-cases (b.book.borrow == 0)) [
            | inl z ↦ rw z (refl, refl)
            | inr z ↦ rw z (refl, swap_in-mark p 0 async e)
          ])
  ]

  -- In a state whose nodes have one owner each, `Delete_book` takes the first book with the id
  -- out of the catalog, if there is one, and changes no other.
  pub delete_book-drop :
      (async : Bool) → titles (delete_book id async s).books ≡ drop_first id (titles s.books)
  unfolding delete_book
  delete_book-drop async = elim (Option-cases (find_book id s.books)) [
    | inl e ↦
        rw (e, delete_book)
          (sym (drop_first-none id (titles s.books) (find_book-none id s.books e)))
    | inr (b, e) ↦
        rw (e, delete_book, retire-books) (titles-remove id s.books e (addr-le_one b.addr))
  ]

mark-mark : (id : ℕ) (bs : List Book) → is_available id bs ≡ true → mark id 0 (mark id 1 bs) ≡ bs
unfolding first mark
mark-mark id [] h = ground arith
mark-mark id (b ∷ bs) h = ground (arith, mark-mark id bs)

is_lent-mark :
    (id : ℕ) (bs : List Book) → is_available id bs ≡ true → is_lent id (mark id 1 bs) ≡ true
unfolding first mark
is_lent-mark id [] h = ground arith
is_lent-mark id (b ∷ bs) h = ground (arith, is_lent-mark id bs)

-- In a state whose nodes have one owner each, while memory lasts, a book that was borrowed with
-- success can be returned at once, in either mode, and the catalog is then what it was before.
pub return-borrow :
    (id p q : ℕ) (async async' : Bool) (s : Shelf)
    → IsOwned s
    → count p s.live ≡ 0
    → (borrow_book (some p) id async s).0 ≡ true
    → let lent = (borrow_book (some p) id async s).1 in
      ((return_book (some q) id async' lent).0 ≡ true)
      × (titles (return_book (some q) id async' lent).1.books ≡ titles s.books)
return-borrow id p q async async' s o f h =
    let (got, view) = borrow_book-mark id s o p async in
    let free : is_available id (titles s.books) ≡ true = sym got ∙ h in
    let lent = (borrow_book (some p) id async s).1 in
    let (back, view') =
      return_book-mark id lent (borrow_book-IsOwned (some p) id s o async f) q async' in
    let view_lent : titles lent.books ≡ mark id 1 (titles s.books) = rw free at view in
    let is_out : is_lent id (titles lent.books) ≡ true =
      rw view_lent (is_lent-mark id (titles s.books) free) in
    (back ∙ is_out, rw (is_out, view_lent, mark-mark id (titles s.books) free) at view')
