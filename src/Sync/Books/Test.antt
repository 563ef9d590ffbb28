-- ===== src/Sync/Books/Test.antt =====
-- `Test_example` of list_rcu.c: its calls in order, with what `kzalloc` returns to the three adds,
-- the loan and the return. What the program prints, and the two reads it prints from, leave no
-- trace.

use linux_kernel_prog.Prelude.{ℕ, ◌≡◌, refl, Bool, true, false, Option, some, [], ◌∷◌, codes}
use linux_kernel_prog.Sync.Books.{
  Shelf, empty_shelf, add_book, borrow_book, return_book, delete_book,
}

unfoldable pub test_example :
    (first second third lent back : Option ℕ) → (async : Bool) → Shelf → Shelf
unfolding add_book borrow_book return_book delete_book
test_example first second third lent back async s =
    let s1 =
      add_book second 114 (codes "BOOK2") (codes "zbc")
        (add_book first 102 (codes "BOOK1") (codes "xyz") s) in
    let s2 = (borrow_book lent 114 async s1).1 in
    let s3 = add_book third 119 (codes "BOOK3") (codes "rubini") s2 in
    let s4 = (return_book back 114 async s3).1 in
    delete_book 102 async (delete_book 119 async (delete_book 114 async s4))

-- Run synchronously from the empty list it gives every node back.
sync_run : test_example (some 1) (some 2) (some 3) (some 4) (some 5) false empty_shelf ≡ empty_shelf
unfolding test_example
sync_run = refl

-- Run asynchronously it leaves the work to five callbacks.
async_run :
    (test_example (some 1) (some 2) (some 3) (some 4) (some 5) true empty_shelf).pending
    ≡ 1 ∷ 3 ∷ 5 ∷ 4 ∷ 2 ∷ []
unfolding test_example
async_run = refl
