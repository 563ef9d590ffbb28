-- ===== src/Buggy/Checker/Newest.antt =====
-- The laws for the newest object of the heap.
use linux_kernel_prog.Prelude.{
  ℕ, ◌+◌, ◌≡◌, ◌≤◌, refl, ap, ◌∙◌, List, [], ◌∷◌, ◌++◌, arith, length, replicate, true,
}
use linux_kernel_prog.Buggy.Checker.{
  out_of_bounds, use_after_free, Block, Machine, done, double_free, kfree, Place, at, before,
  within, access, access_run, access_before,
}
use linux_kernel_prog.Buggy.Checker.Laws.{
  reported, access-behind, access_before_start, access-freed, access_run-inside, access_run-behind,
  access_run-freed, access_before-reports, access_run-across, kfree-live, kfree-freed, fresh, freed,
  get_elem?-last, set-last,
}

-- A machine whose newest object is this one.
abbrev pub on : List Block → Block → Machine → Machine
on bs b v = record v { blocks = bs ++ b ∷ [] }

pub kfree-new :
    (n : ℕ) (bs : List Block) (v : Machine)
    → kfree (length bs) (on bs (fresh n) v) ≡ done tt (on bs (freed n) v)
kfree-new n bs v =
    kfree-live (length bs) (fresh n) (on bs (fresh n) v) (get_elem?-last bs (fresh n)) refl
    ∙ ap (λ r. done tt (record v { blocks = r })) (set-last bs (fresh n) (freed n))

pub kfree-again :
    (n : ℕ) (bs : List Block) (v : Machine)
    → kfree (length bs) (on bs (freed n) v)
      ≡ done tt (reported (on bs (freed n) v) (double_free ∷ []))
kfree-again n bs v =
    kfree-freed (length bs) (freed n) (on bs (freed n) v) (get_elem?-last bs (freed n)) refl

module _ (size : ℕ) (bs : List Block) (v : Machine) where
  -- The laws for the newest object.
  pub new-inside :
      (from count : ℕ)
      → from + count ≤ size
      → access_run (length bs) from count (on bs (fresh size) v) ≡ done tt (on bs (fresh size) v)
  new-inside from count room =
      access_run-inside (length bs) from count (on bs (fresh size) v) (get_elem?-last bs _) refl
        room

  pub new-behind :
      (from count : ℕ)
      → size ≤ from
      → access_run (length bs) from count (on bs (fresh size) v)
        ≡ done tt (on bs (fresh size) (reported v (replicate count out_of_bounds)))
  new-behind from count room =
      access_run-behind (length bs) from count (on bs (fresh size) v) (get_elem?-last bs _) refl
        room

  pub new-across :
      (behind count : ℕ)
      → count ≡ size + behind
      → access_run (length bs) 0 count (on bs (fresh size) v)
        ≡ done tt (on bs (fresh size) (reported v (replicate behind out_of_bounds)))
  new-across behind count total =
      access_run-across (length bs) 0 size behind count (on bs (fresh size) v) (get_elem?-last bs _)
        refl (omega arith) total

  pub new-before :
      (count : ℕ)
      → access_before (length bs) count (on bs (fresh size) v)
        ≡ done tt (on bs (fresh size) (reported v (replicate count out_of_bounds)))
  new-before count =
      access_before-reports (length bs) count (on bs (fresh size) v) (get_elem?-last bs _) refl

  pub new_at_behind :
      (i : ℕ)
      → size ≤ i
      → access (length bs) (at i) (on bs (fresh size) v)
        ≡ done tt (on bs (fresh size) (reported v (out_of_bounds ∷ [])))
  new_at_behind i room =
      access-behind (length bs) i (on bs (fresh size) v) (get_elem?-last bs _) refl room

  pub new_before_start :
      (i : ℕ)
      → access (length bs) (before i) (on bs (fresh size) v)
        ≡ done tt (on bs (fresh size) (reported v (out_of_bounds ∷ [])))
  new_before_start i =
      access_before_start (length bs) i (on bs (fresh size) v) (get_elem?-last bs _) refl

  pub freed-run :
      (from count : ℕ)
      → from + count ≤ size
      → access_run (length bs) from count (on bs (freed size) v)
        ≡ done tt (on bs (freed size) (reported v (replicate count use_after_free)))
  freed-run from count room =
      access_run-freed (length bs) from count (on bs (freed size) v) (get_elem?-last bs _) refl room

  pub freed-access :
      (place : Place)
      → within place size ≡ true
      → access (length bs) place (on bs (freed size) v)
        ≡ done tt (on bs (freed size) (reported v (use_after_free ∷ [])))
  freed-access place inside =
      access-freed (length bs) place (on bs (freed size) v) (get_elem?-last bs _) refl inside
