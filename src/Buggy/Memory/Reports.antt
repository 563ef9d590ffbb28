-- ===== src/Buggy/Memory/Reports.antt =====
-- What each command of the modules of debug-lkms/buggy-modules/memory is reported for.
use linux_kernel_prog.Prelude.{
  ℕ, ◌≡◌, ◌≤◌, refl, ◌∙◌, List, [], ◌∷◌, true, arith, length, replicate,
}
use linux_kernel_prog.Kernel.{Result, ok}
use linux_kernel_prog.Buggy.Checker.{
  Report, double_free, out_of_bounds, use_after_free, invalid_free, Block, Machine, done, M, answer,
  ◌>>◌, ◌>>=◌, kfree_invalid, report,
}
use linux_kernel_prog.Buggy.Checker.Newest.{
  new-inside, new-across, new-behind, new-before, new_before_start, freed-run, on, kfree-new,
  kfree-again,
}
use linux_kernel_prog.Buggy.Checker.Laws.{
  reported, grants, with_block, fresh, freed, kmalloc-grants,
}
use linux_kernel_prog.Buggy.Memory.{with_kmalloc}
use linux_kernel_prog.Buggy.Memory.DoubleFree
use linux_kernel_prog.Buggy.Memory.UseAfterFree
use linux_kernel_prog.Buggy.Memory.InvalidFree
use linux_kernel_prog.Buggy.Memory.BufferOverflow
use linux_kernel_prog.Buggy.Memory.OobRead

pub with_kmalloc-grants :
    (size : ℕ) (body : ℕ → M (Result (Unit {0}))) (m : Machine)
    → grants m ≡ true
    → with_kmalloc size body m ≡ body (length m.blocks) (with_block m (fresh size))
unfolding with_kmalloc
with_kmalloc-grants size body m h = rw (with_kmalloc, ◌>>=◌, kmalloc-grants size m h) refl

module _ (m : Machine) (g : grants m ≡ true) where
  abbrev bs : List Block
  bs = m.blocks

  -- The machine after the allocation, with what it has reported since.
  abbrev v : List Report → Machine
  v rs = reported (answer m).1 rs

  pub trigger-double :
      DoubleFree.trigger m ≡ done (ok tt) (on bs (freed 128) (v (double_free ∷ [])))
  unfolding DoubleFree.trigger
  trigger-double =
      with_kmalloc-grants 128 _ m g
      ∙ rw
          (
            ◌>>◌,
            new-inside 128 bs (answer m).1 0 10 (omega arith),
            kfree-new 128 bs (answer m).1,
            kfree-again 128 bs (answer m).1,
          )
          refl

  pub complex-double : DoubleFree.complex m ≡ done (ok tt) (on bs (freed 64) (v (double_free ∷ [])))
  unfolding DoubleFree.complex
  complex-double =
      with_kmalloc-grants 64 _ m g
      ∙ rw (◌>>◌, kfree-new 64 bs (answer m).1, kfree-again 64 bs (answer m).1) refl

  pub trigger-after_free :
      (seen : ℕ)
      → seen ≤ 128
      → UseAfterFree.trigger seen m
        ≡ done (ok tt) (
            on bs
              (freed 128)
              (reported (v (replicate seen use_after_free)) (replicate 30 use_after_free)))
  unfolding UseAfterFree.trigger
  trigger-after_free seen inside =
      with_kmalloc-grants 128 _ m g
      ∙ rw
          (
            ◌>>◌,
            new-inside 128 bs (answer m).1 0 30 (omega arith),
            new-inside 128 bs (answer m).1 0 30 (omega arith),
            kfree-new 128 bs (answer m).1,
            freed-run 128 bs (answer m).1 0 seen (omega arith),
            freed-run 128 bs (v (replicate seen use_after_free)) 0 30 (omega arith),
          )
          refl

  pub leak-kept : UseAfterFree.leak m ≡ done (ok tt) (on bs (fresh 256) (answer m).1)
  unfolding UseAfterFree.leak
  leak-kept =
      rw
        (
          UseAfterFree.leak,
          ◌>>=◌,
          kmalloc-grants 256 m g,
          ◌>>◌,
          new-inside 256 bs (answer m).1 0 14 (omega arith),
        )
        refl

  pub offset-invalid :
      InvalidFree.offset m ≡ done (ok tt) (on bs (fresh 64) (v (invalid_free ∷ [])))
  unfolding InvalidFree.offset kfree_invalid report
  offset-invalid = with_kmalloc-grants 64 _ m g ∙ refl

  pub overflow-behind :
      BufferOverflow.overflow m ≡ done (ok tt) (on bs (freed 64) (v (replicate 64 out_of_bounds)))
  unfolding BufferOverflow.overflow
  overflow-behind =
      with_kmalloc-grants 64 _ m g
      ∙ rw
          (
            ◌>>◌,
            new-across 64 bs (answer m).1 64 128 refl,
            kfree-new 64 bs (v (replicate 64 out_of_bounds)),
          )
          refl

  pub underflow-before :
      BufferOverflow.underflow m ≡ done (ok tt) (on bs (freed 64) (v (replicate 64 out_of_bounds)))
  unfolding BufferOverflow.underflow
  underflow-before =
      with_kmalloc-grants 64 _ m g
      ∙ rw
          (◌>>◌, new-before 64 bs (answer m).1 64, kfree-new 64 bs (v (replicate 64 out_of_bounds)))
          refl

  pub oob_read-behind :
      OobRead.overflow m ≡ done (ok tt) (on bs (freed 64) (v (replicate 64 out_of_bounds)))
  unfolding OobRead.overflow
  oob_read-behind =
      with_kmalloc-grants 64 _ m g
      ∙ rw
          (
            ◌>>◌,
            new-behind 64 bs (answer m).1 64 64 (omega arith),
            kfree-new 64 bs (v (replicate 64 out_of_bounds)),
          )
          refl

  pub oob_read-before :
      OobRead.underflow m
      ≡ done (ok tt) (on bs (freed 64) (reported (v (out_of_bounds ∷ [])) (out_of_bounds ∷ [])))
  unfolding OobRead.underflow
  oob_read-before =
      with_kmalloc-grants 64 _ m g
      ∙ rw
          (
            ◌>>◌,
            new_before_start 64 bs (answer m).1 1,
            new_before_start 64 bs (v (out_of_bounds ∷ [])) 16,
            kfree-new 64 bs (reported (v (out_of_bounds ∷ [])) (out_of_bounds ∷ [])),
          )
          refl
