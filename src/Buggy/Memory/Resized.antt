-- ===== src/Buggy/Memory/Resized.antt =====
-- krealloc_misuse.c frees its object twice wherever `krealloc` leaves it.
use mathlib.Core.Path.{subst}
use linux_kernel_prog.Prelude.{
  ℕ, suc, ◌≡◌, ◌<◌, codes, refl, ap, ◌∙◌, some, List, [], ◌∷◌, ◌++◌, Bool, true, false, arith,
  length, get_elem?, set,
}
use linux_kernel_prog.Kernel.{ok}
use linux_kernel_prog.Interfaces.Counter.{Write}
use linux_kernel_prog.Buggy.Checker.{Block, Machine, done, double_free, answer, kfree, ◌>>=◌, ◌>>◌}
use linux_kernel_prog.Buggy.Checker.Laws.{
  reported, grants, with_block, fresh, freed, kmalloc-grants, kfree-live, kfree-freed, set-last,
  serve-command,
}
use linux_kernel_prog.Buggy.Checker.Newest.{on, kfree-new, kfree-again}
use linux_kernel_prog.Buggy.Memory.Reports.{with_kmalloc-grants}
use linux_kernel_prog.Buggy.Memory.KreallocMisuse

module _ {A : Type 0} where
  get_elem?-older :
      (xs : List A) (x y : A) → get_elem? ((xs ++ x ∷ []) ++ y ∷ []) (length xs) ≡ some x
  get_elem?-older [] x y = refl
  get_elem?-older (z ∷ xs) x y = get_elem?-older xs x y

  set-older :
      (xs : List A) (x y z : A)
      → set ((xs ++ x ∷ []) ++ y ∷ []) (length xs) z ≡ (xs ++ z ∷ []) ++ y ∷ []
  set-older [] x y z = refl
  set-older (a ∷ xs) x y z = ap (λ r. a ∷ r) (set-older xs x y z)

  same_length : (xs : List A) (x y : A) → length (xs ++ x ∷ []) ≡ length (xs ++ y ∷ [])
  same_length [] x y = refl
  same_length (a ∷ xs) x y = ap suc (same_length xs x y)

answer-reports : (m : Machine) → (answer m).1.reports ≡ m.reports
unfolding answer
answer-reports m = ground arith

-- Two objects, the newer one behind the older one.
abbrev two : List Block → Block → Block → Machine → Machine
two bs b c v = on (bs ++ b ∷ []) c v

kfree-older :
    (n : ℕ) (bs : List Block) (c : Block) (v : Machine)
    → kfree (length bs) (two bs (fresh n) c v) ≡ done tt (two bs (freed n) c v)
kfree-older n bs c v =
    kfree-live (length bs) (fresh n) (two bs (fresh n) c v) (get_elem?-older bs (fresh n) c) refl
    ∙ ap (λ r. done tt (record v { blocks = r })) (set-older bs (fresh n) c (freed n))

kfree-older_again :
    (n : ℕ) (bs : List Block) (c : Block) (v : Machine)
    → kfree (length bs) (two bs (freed n) c v)
      ≡ done tt (two bs (freed n) c (reported v (double_free ∷ [])))
kfree-older_again n bs c v =
    kfree-freed (length bs) (freed n) (two bs (freed n) c v) (get_elem?-older bs (freed n) c) refl

-- The newer object, by the number that it got when the older one was live.
kfree-newer :
    (n k : ℕ) (bs : List Block) (v : Machine)
    → kfree (length (bs ++ fresh n ∷ [])) (two bs (freed n) (fresh k) v)
      ≡ done tt (two bs (freed n) (freed k) v)
kfree-newer n k bs v =
    subst (λ i. kfree i (two bs (freed n) (fresh k) v) ≡ done tt (two bs (freed n) (freed k) v))
      (same_length bs (freed n) (fresh n)) (kfree-new k (bs ++ freed n ∷ []) v)

module _ (m : Machine) (g : grants m ≡ true) (g₂ : grants (with_block m (fresh 64)) ≡ true) where
  abbrev m₁ : Machine
  m₁ = with_block m (fresh 64)

  abbrev bs : List Block
  bs = m.blocks

  moved :
      KreallocMisuse.double_free true m
      ≡ done (ok tt) (two bs (freed 64) (freed 128) (reported (answer m₁).1 (double_free ∷ [])))
  unfolding KreallocMisuse.double_free KreallocMisuse.krealloc
  moved =
      with_kmalloc-grants 64 _ m g
      ∙ rw
          (
            ◌>>=◌,
            KreallocMisuse.krealloc,
            kmalloc-grants 128 m₁ g₂,
            ◌>>◌,
            kfree-older 64 bs (fresh 128) (answer m₁).1,
            kfree-older_again 64 bs (fresh 128) (answer m₁).1,
            kfree-newer 64 128 bs (reported (answer m₁).1 (double_free ∷ [])),
          )
          refl

  in_place :
      KreallocMisuse.double_free false m
      ≡ done (ok tt) (on bs (freed 128) (reported (answer m₁).1 (double_free ∷ [])))
  unfolding KreallocMisuse.double_free KreallocMisuse.krealloc KreallocMisuse.resize
  in_place =
      with_kmalloc-grants 64 _ m g
      ∙ rw
          (
            ◌>>=◌,
            KreallocMisuse.resize,
            g₂,
            set-last bs (fresh 64) (fresh 128),
            ◌>>◌,
            kfree-new 128 bs (answer m₁).1,
            kfree-again 128 bs (answer m₁).1,
          )
          refl

  first_reports : (answer m₁).1.reports ≡ m.reports
  first_reports = answer-reports m₁ ∙ answer-reports m

  -- A write of `double_free` frees an object twice, once and no more, whether `krealloc` moves the
  -- object or finds room where it is, if the allocator grants both calls and the write has less than
  -- 16 bytes.
  pub krealloc-double :
      (moves : Bool) (w : Write) (rest : List ℕ)
      → w.bytes < 16
      → w.copied ≡ some (codes "double_free" ++ rest)
      → (v : Machine) × (KreallocMisuse.trigger_write moves w m ≡ done (ok w.bytes) v)
        × (v.reports ≡ m.reports ++ double_free ∷ [])
  unfolding KreallocMisuse.trigger_write KreallocMisuse.command
  krealloc-double true w rest short copied = (
    _,
    serve-command 16 (KreallocMisuse.command true) w m short copied moved,
    ap (λ r. r ++ double_free ∷ []) first_reports,
  )
  krealloc-double false w rest short copied = (
    _,
    serve-command 16 (KreallocMisuse.command false) w m short copied in_place,
    ap (λ r. r ++ double_free ∷ []) first_reports,
  )
