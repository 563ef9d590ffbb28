-- ===== src/Sync/Books.antt =====
-- sync/part3/list_rcu.c: a list of books under RCU. A node is at an address; `live` holds the
-- addresses that `kzalloc` gave out and `kfree` has not taken back, `pending` those handed to
-- `call_rcu` whose callback has not run, and `bad_frees` counts the calls of `kfree` on an address that
-- is not live. The functions run to their end one after another; what
-- `kzalloc` returns is an argument, `none` where memory is exhausted.
pub mod Catalog
pub mod Memory
pub mod Lookup
pub mod Test
mod Examples
use linux_kernel_prog.Prelude.{
  ℕ, suc, ◌≤◌, ◌≡◌, Bool, true, false, Option, none, some, List, [], ◌∷◌, ◌++◌, take, erase, ◌==◌,
  if◌then◌else◌, count, ◌+◌,
}

pub record Book : Type 0 where
  pub id : ℕ  -- int
  pub name : List ℕ  -- char[64]
  pub author : List ℕ  -- char[64]
  pub borrow : ℕ  -- int

-- A node of the list, with its address.
pub record Node : Type 0 where
  pub addr : ℕ
  pub book : Book

pub record Shelf : Type 0 where
  pub books : List Node
  pub live : List ℕ
  pub pending : List ℕ
  pub bad_frees : ℕ

abbrev pub empty_shelf : Shelf
empty_shelf = record { books = []; live = []; pending = []; bad_frees = 0 }

-- The first node with this id.
unfoldable pub find_book : ℕ → List Node → Option Node
find_book id [] = none
find_book id (n ∷ ns) = if n.book.id == id then some n else find_book id ns

-- `list_replace_rcu`: the node at an address gives its place to another.
unfoldable pub replace_node : ℕ → Node → List Node → List Node
replace_node a new [] = []
replace_node a new (n ∷ ns) = if n.addr == a then new ∷ ns else n ∷ replace_node a new ns

-- `list_del_rcu`
unfoldable pub remove_node : ℕ → List Node → List Node
remove_node a [] = []
remove_node a (n ∷ ns) = if n.addr == a then ns else n ∷ remove_node a ns

-- `kfree`
unfoldable pub kfree : ℕ → Shelf → Shelf
kfree a s = record s {
  live = erase a s.live;
  bad_frees = if count a s.live == 0 then suc s.bad_frees else s.bad_frees;
}

-- What follows the removal of a node: `call_rcu`, or `synchronize_rcu` and `kfree`.
unfoldable pub retire : (async : Bool) → ℕ → Shelf → Shelf
unfolding kfree
retire true a s = record s { pending = a ∷ s.pending }
retire false a s = kfree a s

-- The callback runs on the address queued last; the order of callbacks does not matter here.
unfoldable pub reclaim_callback : Shelf → Shelf
unfolding kfree
reclaim_callback s = elim s.pending [ [] ↦ s | a ∷ later ↦ kfree a (record s { pending = later }) ]

-- `strncpy` into a field of 64 characters.
abbrev pub field_size : ℕ
field_size = 64

unfoldable pub add_book : (fresh : Option ℕ) (id : ℕ) (name author : List ℕ) → Shelf → Shelf
add_book none id name author s = s
add_book (some p) id name author s = record s {
  books =
      record {
        addr = p;
        book = record {
          id = id;
          name = take field_size name;
          author = take field_size author;
          borrow = 0;
        };
      }
      ∷ s.books;
  live = p ∷ s.live;
}

-- `memcpy`, then the new value of `borrow`.
abbrev pub copy_node : ℕ → ℕ → Node → Node
copy_node p borrow n = record { addr = p; book = record n.book { borrow = borrow } }

-- The end of `Borrow_book` and of `Return_book`, once the old node is found. `true` is the result
-- 0, `false` is -1.
unfoldable pub swap_in : (fresh : Option ℕ) (borrow : ℕ) → Bool → Node → Shelf → Bool × Shelf
unfolding replace_node retire
swap_in none borrow async old s = (false, s)
swap_in (some p) borrow async old s = (
  true,
  retire async old.addr (record s {
    books = replace_node old.addr (copy_node p borrow old) s.books;
    live = p ∷ s.live;
  }),
)

unfoldable pub borrow_book : (fresh : Option ℕ) (id : ℕ) → (async : Bool) → Shelf → Bool × Shelf
unfolding find_book swap_in
borrow_book fresh id async s = elim (find_book id s.books) [
  | none ↦ (false, s)
  | some b ↦ if b.book.borrow == 0 then swap_in fresh 1 async b s else (false, s)
]

unfoldable pub return_book : (fresh : Option ℕ) (id : ℕ) → (async : Bool) → Shelf → Bool × Shelf
unfolding find_book swap_in
return_book fresh id async s = elim (find_book id s.books) [
  | none ↦ (false, s)
  | some b ↦ if b.book.borrow == 0 then (false, s) else swap_in fresh 0 async b s
]

unfoldable pub delete_book : (id : ℕ) → (async : Bool) → Shelf → Shelf
unfolding find_book remove_node retire
delete_book id async s = elim (find_book id s.books) [
  | none ↦ s
  | some b ↦ retire async b.addr (record s { books = remove_node b.addr s.books })
]

-- `Is_borrowed` goes on after a match, and its `ret` starts with what the stack holds.
unfoldable pub is_borrowed : (ret : ℕ) → ℕ → List Node → ℕ
is_borrowed ret id [] = ret
is_borrowed ret id (n ∷ ns) = is_borrowed (if n.book.id == id then n.book.borrow else ret) id ns

-- What `List_books` prints of each node, in order.
unfoldable pub list_books : List Node → List Node
list_books [] = []
list_books (n ∷ ns) = n ∷ list_books ns
