-- ===== src/Sync/Books/Examples.antt =====
-- Reachable shelves, and the theorems on them.
use linux_kernel_prog.Prelude.{◌≡◌, refl, true, false, some, [], ◌∷◌, arith, count, if◌then◌else◌}
use linux_kernel_prog.Sync.Books.{
  Shelf, empty_shelf, add_book, borrow_book, return_book, delete_book, reclaim_callback,
  is_borrowed, find_book,
}
use linux_kernel_prog.Sync.Books.Memory.{
  IsOwned, Reach, start, later, add, borrow, delete, reclaim, Reach-IsOwned, Reach-no_leak,
}
use linux_kernel_prog.Sync.Books.Catalog.{
  titles, mark, drop_first, is_available, is_lent, borrow_book-mark, return_book-mark,
  delete_book-drop, return-borrow,
}
use linux_kernel_prog.Sync.Books.Lookup.{copies, is_borrowed-none, is_borrowed-borrow}

-- Two books, the second one added at address 2.
abbrev stocked : Shelf
stocked = add_book (some 2) 114 (b'B' ∷ []) [] (add_book (some 1) 102 (b'A' ∷ []) [] empty_shelf)

stocked-Reach : Reach stocked
unfolding add_book
stocked-Reach =
    later (later start (add (some 1) 102 (b'A' ∷ []) [] refl))
      (add (some 2) 114 (b'B' ∷ []) [] refl)

-- The second book lent out, its old node waiting for the callback.
abbrev lent : Shelf
lent = (borrow_book (some 3) 114 true stocked).1

lent-Reach : Reach lent
unfolding add_book
lent-Reach = later stocked-Reach (borrow (some 3) 114 true refl)

lent_pending : lent.pending ≡ 2 ∷ []
unfolding add_book borrow_book
lent_pending = refl

Reach-IsOwned_example : IsOwned lent
Reach-IsOwned_example = Reach-IsOwned lent-Reach

-- One book added, deleted and reclaimed.
abbrev emptied : Shelf
emptied = reclaim_callback (delete_book 102 true (add_book (some 1) 102 [] [] empty_shelf))

emptied-Reach : Reach emptied
unfolding add_book
emptied-Reach = later (later (later start (add (some 1) 102 [] [] refl)) (delete 102 true)) reclaim

Reach-no_leak_example : count 1 emptied.live ≡ 0
unfolding add_book delete_book reclaim_callback
Reach-no_leak_example = Reach-no_leak emptied-Reach refl refl 1

borrow_book-mark_example :
    ((borrow_book (some 3) 114 false stocked).0 ≡ is_available 114 (titles stocked.books))
    × (titles (borrow_book (some 3) 114 false stocked).1.books ≡ (
        if is_available 114 (titles stocked.books)
        then mark 114 1 (titles stocked.books)
        else titles stocked.books))
borrow_book-mark_example = borrow_book-mark 114 stocked (Reach-IsOwned stocked-Reach) 3 false

return_book-mark_example :
    ((return_book (some 4) 114 false lent).0 ≡ is_lent 114 (titles lent.books))
    × (titles (return_book (some 4) 114 false lent).1.books ≡ (
        if is_lent 114 (titles lent.books)
        then mark 114 0 (titles lent.books)
        else titles lent.books))
return_book-mark_example = return_book-mark 114 lent (Reach-IsOwned lent-Reach) 4 false

delete_book-drop_example :
    titles (delete_book 102 true lent).books ≡ drop_first 102 (titles lent.books)
delete_book-drop_example = delete_book-drop 102 lent (Reach-IsOwned lent-Reach) true

return-borrow_example :
    ((return_book (some 4) 114 false (borrow_book (some 3) 114 true stocked).1).0 ≡ true)
    × (titles (return_book (some 4) 114 false (borrow_book (some 3) 114 true stocked).1).1.books
        ≡ titles stocked.books)
unfolding add_book borrow_book
return-borrow_example =
    return-borrow 114 3 4 true false stocked (Reach-IsOwned stocked-Reach) refl refl

is_borrowed-none_example : is_borrowed 77 500 stocked.books ≡ 77
unfolding add_book find_book
is_borrowed-none_example = is_borrowed-none 77 500 stocked.books refl

is_borrowed-borrow_example : is_borrowed 77 114 (borrow_book (some 3) 114 true stocked).1.books ≡ 1
unfolding add_book borrow_book copies titles
is_borrowed-borrow_example =
    is_borrowed-borrow 114 3 77 true stocked (Reach-IsOwned stocked-Reach) (omega arith) refl
