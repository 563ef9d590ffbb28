-- ===== src/Sync/Books/Memory.antt =====
-- Memory of list_rcu.c: who owns an address.
use linux_kernel_prog.Prelude.{
  ℕ, ◌+◌, ◌≤◌, ◌≡◌, refl, Bool, true, false, Option, none, some, List, [], ◌∷◌, inl, inr,
  Option-cases, Bool-cases, arith, ◌==◌, if◌then◌else◌, count, count-erase,
}
use linux_kernel_prog.Sync.Books.{
  Node, Shelf, find_book, replace_node, remove_node, kfree, retire, reclaim_callback, add_book,
  copy_node, swap_in, borrow_book, return_book, delete_book, empty_shelf,
}

unfoldable pub addresses : List Node → List ℕ
addresses [] = []
addresses (n ∷ ns) = n.addr ∷ addresses ns

-- Every live address is owned once: by a node of the list or by a pending callback.
pub record IsOwned (s : Shelf) : Type 0 where
  pub owned : (a : ℕ) → count a s.live ≡ count a (addresses s.books) + count a s.pending
  pub once : (a : ℕ) → count a s.live ≤ 1
  pub no_bad_free : s.bad_frees ≡ 0

-- What `kzalloc` promises: an address that is not in use.
abbrev pub IsFresh : Option ℕ → Shelf → Type 0
IsFresh none s = Unit
IsFresh (some p) s = count p s.live ≡ 0

pub find_book-count :
    (id : ℕ) (ns : List Node) {b : Node}
    → find_book id ns ≡ some b
    → 1 ≤ count b.addr (addresses ns)
unfolding find_book addresses
find_book-count id [] h = ground arith
find_book-count id (n ∷ ns) {b} h = ground (arith, find_book-count id ns {b = b})

count-replace :
    (a c : ℕ) (new : Node) (ns : List Node)
    → 1 ≤ count a (addresses ns)
    → count c (addresses (replace_node a new ns)) + (if c == a then 1 else 0)
      ≡ count c (addresses ns) + (if c == new.addr then 1 else 0)
unfolding replace_node addresses
count-replace a c new [] h = absurd (omega arith)
count-replace a c new (n ∷ ns) h = ground (arith, count-replace a c new ns)

count-remove :
    (a c : ℕ) (ns : List Node)
    → 1 ≤ count a (addresses ns)
    → count c (addresses (remove_node a ns)) + (if c == a then 1 else 0) ≡ count c (addresses ns)
unfolding remove_node addresses
count-remove a c [] h = absurd (omega arith)
count-remove a c (n ∷ ns) h = ground (arith, count-remove a c ns)

-- Retiring a node that has just left the list restores ownership.
retire-IsOwned :
    (async : Bool) (p : ℕ) (s : Shelf)
    → ((a : ℕ)
        → count a s.live
          ≡ count a (addresses s.books) + count a s.pending + (if a == p then 1 else 0))
    → ((a : ℕ) → count a s.live ≤ 1)
    → s.bad_frees ≡ 0
    → IsOwned (retire async p s)
unfolding retire kfree
retire-IsOwned true p s h k z = record {
  owned = λ a. ground (arith, h a);
  once = k;
  no_bad_free = z;
}
retire-IsOwned false p s h k z = record {
  owned = λ a. ground (arith, h a, count-erase p a s.live);
  once = λ a. ground (arith, k a, count-erase p a s.live);
  no_bad_free = ground (arith, h p);
}

swap_in-IsOwned :
    (fresh : Option ℕ) (borrow : ℕ) (async : Bool) (old : Node) (s : Shelf)
    → IsOwned s
    → IsFresh fresh s
    → 1 ≤ count old.addr (addresses s.books)
    → IsOwned (swap_in fresh borrow async old s).1
unfolding swap_in
swap_in-IsOwned none borrow async old s o f h = o
swap_in-IsOwned (some p) borrow async old s o f h =
    retire-IsOwned async old.addr _
      (λ a. ground (arith, o.owned a, count-replace old.addr a (copy_node p borrow old) s.books))
      (λ a. ground (arith, o.once a)) o.no_bad_free

-- The four operations and the callback keep ownership.
module _ (fresh : Option ℕ) (id : ℕ) (s : Shelf) (o : IsOwned s) where
  add_book-IsOwned :
      (name author : List ℕ) → IsFresh fresh s → IsOwned (add_book fresh id name author s)
  unfolding add_book addresses
  add_book-IsOwned name author f = elim (Option-cases fresh) [
    | inl e ↦ rw e o
    | inr (p, e) ↦ rw e (record {
      owned = λ a. ground (arith, o.owned a);
      once = λ a. ground (arith, o.once a);
      no_bad_free = o.no_bad_free;
    })
  ]

  pub borrow_book-IsOwned :
      (async : Bool) → IsFresh fresh s → IsOwned (borrow_book fresh id async s).1
  unfolding borrow_book
  borrow_book-IsOwned async f = elim (Option-cases (find_book id s.books)) [
    | inl e ↦ rw (e, borrow_book) o
    | inr (b, e) ↦
        rw (e, borrow_book)
          (elim (Bool-cases (b.book.borrow == 0)) [
            | inl z ↦ rw z (swap_in-IsOwned fresh 1 async b s o f (find_book-count id s.books e))
            | inr z ↦ rw z o
          ])
  ]

  return_book-IsOwned : (async : Bool) → IsFresh fresh s → IsOwned (return_book fresh id async s).1
  unfolding return_book
  return_book-IsOwned async f = elim (Option-cases (find_book id s.books)) [
    | inl e ↦ rw (e, return_book) o
    | inr (b, e) ↦
        rw (e, return_book)
          (elim (Bool-cases (b.book.borrow == 0)) [
            | inl z ↦ rw z o
            | inr z ↦ rw z (swap_in-IsOwned fresh 0 async b s o f (find_book-count id s.books e))
          ])
  ]

delete_book-IsOwned :
    (id : ℕ) (async : Bool) (s : Shelf) → IsOwned s → IsOwned (delete_book id async s)
unfolding delete_book
delete_book-IsOwned id async s o = elim (Option-cases (find_book id s.books)) [
  | inl e ↦ rw (e, delete_book) o
  | inr (b, e) ↦
      rw (e, delete_book)
        (retire-IsOwned async b.addr _
          (λ a.
            ground (arith, o.owned a, count-remove b.addr a s.books, find_book-count id s.books e))
          o.once o.no_bad_free)
]

reclaim-IsOwned :
    (ns : List Node) (live pending : List ℕ) (bad : ℕ)
    → IsOwned (record { books = ns; live = live; pending = pending; bad_frees = bad })
    → IsOwned
        (reclaim_callback (record { books = ns; live = live; pending = pending; bad_frees = bad }))
unfolding reclaim_callback kfree
reclaim-IsOwned ns live [] bad o = o
reclaim-IsOwned ns live (p ∷ later) bad o = record {
  owned = λ a. ground (arith, o.owned a, count-erase p a live);
  once = λ a. ground (arith, o.once a, count-erase p a live);
  no_bad_free = ground (arith, o.owned p, o.no_bad_free);
}

-- Any operation, with any result of `kzalloc`; a callback may run between two operations.
pub data Step (s : Shelf) : Shelf → Type 0 where
  add :
      (fresh : Option ℕ) (id : ℕ) (name author : List ℕ)
      → IsFresh fresh s
      → Step s (add_book fresh id name author s)
  borrow :
      (fresh : Option ℕ) (id : ℕ) (async : Bool)
      → IsFresh fresh s
      → Step s (borrow_book fresh id async s).1
  give_back :
      (fresh : Option ℕ) (id : ℕ) (async : Bool)
      → IsFresh fresh s
      → Step s (return_book fresh id async s).1
  delete : (id : ℕ) (async : Bool) → Step s (delete_book id async s)
  reclaim : Step s (reclaim_callback s)

pub data Reach : Shelf → Type 0 where
  start : Reach empty_shelf
  later : {s t : Shelf} → Reach s → Step s t → Reach t

Step-IsOwned : {s t : Shelf} → Step s t → IsOwned s → IsOwned t
Step-IsOwned {s} (add fresh id name author f) o = add_book-IsOwned fresh id s o name author f
Step-IsOwned {s} (borrow fresh id async f) o = borrow_book-IsOwned fresh id s o async f
Step-IsOwned {s} (give_back fresh id async f) o = return_book-IsOwned fresh id s o async f
Step-IsOwned {s} (delete id async) o = delete_book-IsOwned id async s o
Step-IsOwned {s} reclaim o = reclaim-IsOwned s.books s.live s.pending s.bad_frees o

-- In every reachable state each live address belongs to exactly one node of the list or one pending
-- callback, and to one only, and `kfree` has only been called on live addresses: no operation, in
-- either mode, leaks a node, frees one twice or leaves a freed node in the list.
pub Reach-IsOwned : {s : Shelf} → Reach s → IsOwned s
unfolding addresses
Reach-IsOwned start = record { owned = λ a. refl; once = λ a. omega arith; no_bad_free = refl }
Reach-IsOwned (later r st) = Step-IsOwned st (Reach-IsOwned r)

-- In a reachable state with no book left and no callback pending, no node is allocated.
pub Reach-no_leak :
    {s : Shelf} → Reach s → s.books ≡ [] → s.pending ≡ [] → (a : ℕ) → count a s.live ≡ 0
unfolding addresses
Reach-no_leak r e p a = ground (arith, (Reach-IsOwned r).owned a)
