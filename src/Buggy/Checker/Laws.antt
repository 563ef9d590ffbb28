-- ===== src/Buggy/Checker/Laws.antt =====
-- The newest object, and runs of accesses to it.
use linux_kernel_prog.Prelude.{
  ℕ, zero, suc, ◌+◌, ◌≡◌, ◌≤◌, ◌<◌, refl, ap, ◌∙◌, some, List, [], ◌∷◌, ◌++◌, sym, lt→ltb, ltb, leb,
  Bool, none, true, false, arith, length, get_elem?, set, replicate,
}
use mathlib.Core.List.{append_assoc, append-nil}
use linux_kernel_prog.Kernel.{Result, ok}
use linux_kernel_prog.Interfaces.Counter.{Write}
use linux_kernel_prog.Buggy.Checker.{
  Report, out_of_bounds, use_after_free, Block, Machine, Outcome, done, hung, double_free, kfree,
  free_block, answer, kmalloc, serve, M, Place, at, before, access, access_block, access_run,
  access_before, within, report,
}

-- The last of a list, by its position.
pub get_elem?-last :
    {A : Type 0} (xs : List A) (x : A) → get_elem? (xs ++ x ∷ []) (length xs) ≡ some x
get_elem?-last [] x = refl
get_elem?-last (y ∷ xs) x = get_elem?-last xs x

pub set-last :
    {A : Type 0} (xs : List A) (x z : A) → set (xs ++ x ∷ []) (length xs) z ≡ xs ++ z ∷ []
set-last [] x z = refl
set-last (y ∷ xs) x z = ap (λ r. y ∷ r) (set-last xs x z)

-- A machine that has reported so much more.
abbrev pub reported : Machine → List Report → Machine
reported m rs = record m { reports = m.reports ++ rs }

beyond : (i size : ℕ) → size ≤ i → ltb i size ≡ false
beyond i size h = ground arith

abbrev no_more : Machine → List Report → Outcome (Unit {0})
no_more m rs = done tt (record m { reports = rs })

module _ (p : ℕ) {b : Block} where
  pub access-inside :
      (i : ℕ) (m : Machine)
      → get_elem? m.blocks p ≡ some b
      → b.live ≡ true
      → i < b.size
      → access p (at i) m ≡ done tt m
  unfolding access access_block within
  access-inside i m h live room = rw (h, live, lt→ltb i b.size room) refl

  pub access-behind :
      (i : ℕ) (m : Machine)
      → get_elem? m.blocks p ≡ some b
      → b.live ≡ true
      → b.size ≤ i
      → access p (at i) m ≡ done tt (reported m (out_of_bounds ∷ []))
  unfolding access access_block within report
  access-behind i m h live room = rw (h, live, beyond i b.size room) refl

  pub access_before_start :
      (i : ℕ) (m : Machine)
      → get_elem? m.blocks p ≡ some b
      → b.live ≡ true
      → access p (before i) m ≡ done tt (reported m (out_of_bounds ∷ []))
  unfolding access access_block within report
  access_before_start i m h live = rw (h, live) refl

  pub access-freed :
      (place : Place) (m : Machine)
      → get_elem? m.blocks p ≡ some b
      → b.live ≡ false
      → within place b.size ≡ true
      → access p place m ≡ done tt (reported m (use_after_free ∷ []))
  unfolding access access_block report
  access-freed place m h live inside = rw (h, live, inside) refl

  -- A run inside of a live object reports nothing.
  pub access_run-inside :
      (from count : ℕ) (m : Machine)
      → get_elem? m.blocks p ≡ some b
      → b.live ≡ true
      → from + count ≤ b.size
      → access_run p from count m ≡ done tt m
  unfolding access_run
  access_run-inside from zero m h live room = refl
  access_run-inside from (suc n) m h live room =
      rw (access_run, access-inside from m h live (omega arith))
        (access_run-inside (suc from) n m h live (omega arith))

  -- A run behind a live object reports every byte.
  pub access_run-behind :
      (from count : ℕ) (m : Machine)
      → get_elem? m.blocks p ≡ some b
      → b.live ≡ true
      → b.size ≤ from
      → access_run p from count m ≡ done tt (reported m (replicate count out_of_bounds))
  unfolding access_run
  access_run-behind from zero m h live room = ap (no_more m) (sym (append-nil m.reports))
  access_run-behind from (suc n) m h live room =
      rw (access_run, access-behind from m h live room)
        (access_run-behind (suc from) n (reported m (out_of_bounds ∷ [])) h live (omega arith)
          ∙ ap (no_more m)
              (append_assoc m.reports (out_of_bounds ∷ []) (replicate n out_of_bounds)))

  -- A run inside of a freed object reports every byte.
  pub access_run-freed :
      (from count : ℕ) (m : Machine)
      → get_elem? m.blocks p ≡ some b
      → b.live ≡ false
      → from + count ≤ b.size
      → access_run p from count m ≡ done tt (reported m (replicate count use_after_free))
  unfolding access_run within
  access_run-freed from zero m h live room = ap (no_more m) (sym (append-nil m.reports))
  access_run-freed from (suc n) m h live room =
      rw (access_run, access-freed (at from) m h live (lt→ltb from b.size (omega arith)))
        (access_run-freed (suc from) n (reported m (use_after_free ∷ [])) h live (omega arith)
          ∙ ap (no_more m)
              (append_assoc m.reports (use_after_free ∷ []) (replicate n use_after_free)))

  -- A run before a live object reports every byte.
  pub access_before-reports :
      (count : ℕ) (m : Machine)
      → get_elem? m.blocks p ≡ some b
      → b.live ≡ true
      → access_before p count m ≡ done tt (reported m (replicate count out_of_bounds))
  unfolding access_before
  access_before-reports zero m h live = ap (no_more m) (sym (append-nil m.reports))
  access_before-reports (suc n) m h live =
      rw (access_before, access_before_start (suc n) m h live)
        (access_before-reports n (reported m (out_of_bounds ∷ [])) h live
          ∙ ap (no_more m)
              (append_assoc m.reports (out_of_bounds ∷ []) (replicate n out_of_bounds)))

module _ (p : ℕ) (b : Block) (m : Machine) (h : get_elem? m.blocks p ≡ some b) where
  pub kfree-live :
      b.live ≡ true
      → kfree p m ≡ done tt (record m { blocks = set m.blocks p (record b { live = false }) })
  unfolding kfree free_block
  kfree-live live = rw (h, live) refl

  pub kfree-freed : b.live ≡ false → kfree p m ≡ done tt (reported m (double_free ∷ []))
  unfolding kfree free_block report
  kfree-freed live = rw (h, live) refl

-- A machine on which the allocator grants the next call, and what is left of its answers then.
abbrev pub grants : Machine → Bool
grants m = (answer m).0

-- The machine with one object more.
abbrev pub with_block : Machine → Block → Machine
with_block m b = record (answer m).1 { blocks = m.blocks ++ b ∷ [] }

abbrev pub fresh : ℕ → Block
fresh size = record { size = size; live = true }

abbrev pub freed : ℕ → Block
freed size = record { size = size; live = false }

answer-blocks : (m : Machine) → (answer m).1.blocks ≡ m.blocks
unfolding answer
answer-blocks m = ground arith

pub kmalloc-grants :
    (size : ℕ) (m : Machine)
    → grants m ≡ true
    → kmalloc size m ≡ done (some (length m.blocks)) (with_block m (fresh size))
unfolding kmalloc
kmalloc-grants size m h = rw (kmalloc, h, answer-blocks m) refl

pub kmalloc-refuses :
    (size : ℕ) (m : Machine) → grants m ≡ false → kmalloc size m ≡ done none (answer m).1
unfolding kmalloc
kmalloc-refuses size m h = rw h refl

short-leb : (size n : ℕ) → n < size → leb size n ≡ false
short-leb size n h = ground arith

-- A command that is served, once it has come into the array.
pub serve-command :
    (size : ℕ) (command : List ℕ → M (Result (Unit {0}))) (w : Write) (m : Machine) {cmd : List ℕ}
    {v : Machine}
    → w.bytes < size
    → w.copied ≡ some cmd
    → command cmd m ≡ done (ok tt) v
    → serve size command w m ≡ done (ok w.bytes) v
unfolding serve
serve-command size command w m {cmd} short copied run =
    rw (short-leb size w.bytes short, copied, run) refl

-- A run across the end of a live object reports the bytes behind it.
pub access_run-across :
    (p : ℕ) {b : Block} (from inside behind count : ℕ) (m : Machine)
    → get_elem? m.blocks p ≡ some b
    → b.live ≡ true
    → from + inside ≡ b.size
    → count ≡ inside + behind
    → access_run p from count m ≡ done tt (reported m (replicate behind out_of_bounds))
unfolding access_run
access_run-across p from zero behind count m h live end total =
    let same : count ≡ behind = omega arith in
    rw same (access_run-behind p from behind m h live (omega arith))
access_run-across p from (suc n) behind zero m h live end total = absurd (omega arith)
access_run-across p from (suc n) behind (suc c) m h live end total =
    rw (access_run, access-inside p from m h live (omega arith))
      (access_run-across p (suc from) n behind c m h live (omega arith) (omega arith))

pub serve-hung :
    (size : ℕ) (command : List ℕ → M (Result (Unit {0}))) (w : Write) (m : Machine) {cmd : List ℕ}
    {v : Machine}
    → w.bytes < size
    → w.copied ≡ some cmd
    → command cmd m ≡ hung v
    → serve size command w m ≡ hung v
unfolding serve
serve-hung size command w m {cmd} short copied run =
    rw (short-leb size w.bytes short, copied, run) refl
