-- ===== src/Buggy/Memory/Table.antt =====
-- The commands of debug-lkms/buggy-modules/memory that allocate one object, each with the report
-- that it is written to provoke.
use linux_kernel_prog.Prelude.{
  ℕ, ◌≡◌, refl, ◌∙◌, List, [], ◌∷◌, ◌++◌, true, arith, codes, replicate,
}
use linux_kernel_prog.Kernel.{Result, ok}
use linux_kernel_prog.Interfaces.Counter.{Write}
use linux_kernel_prog.Buggy.Checker.{
  Report, double_free, out_of_bounds, use_after_free, invalid_free, Block, Machine, done, M, answer,
  at, within, ◌>>◌,
}
use linux_kernel_prog.Buggy.Checker.Laws.{reported, grants, fresh, freed}
use linux_kernel_prog.Buggy.Checker.Newest.{on, kfree-new, new-inside, new_at_behind, freed-access}
use linux_kernel_prog.Buggy.Memory.Reports.{with_kmalloc-grants}
use linux_kernel_prog.Buggy.Memory.DoubleFree
use linux_kernel_prog.Buggy.Memory.UseAfterFree
use linux_kernel_prog.Buggy.Memory.InvalidFree
use linux_kernel_prog.Buggy.Memory.BufferOverflow
use linux_kernel_prog.Buggy.Memory.OobRead
use linux_kernel_prog.Buggy.Memory.SlabCorruption

module _ (m : Machine) (g : grants m ≡ true) where
  abbrev bs : List Block
  bs = m.blocks

  abbrev v : List Report → Machine
  v rs = reported (answer m).1 rs

  pub corrupt-behind :
      SlabCorruption.corrupt m
      ≡ done (ok tt) (on bs (freed 128) (reported (v (out_of_bounds ∷ [])) (out_of_bounds ∷ [])))
  unfolding SlabCorruption.corrupt
  corrupt-behind =
      with_kmalloc-grants 128 _ m g
      ∙ rw
          (
            ◌>>◌,
            new_at_behind 128 bs (answer m).1 128 (omega arith),
            new_at_behind 128 bs (v (out_of_bounds ∷ [])) 136 (omega arith),
            kfree-new 128 bs (reported (v (out_of_bounds ∷ [])) (out_of_bounds ∷ [])),
          )
          refl

  pub redzones-behind :
      SlabCorruption.redzones m
      ≡ done (ok tt) (on bs (freed 32) (reported (v (out_of_bounds ∷ [])) (out_of_bounds ∷ [])))
  unfolding SlabCorruption.redzones
  redzones-behind =
      with_kmalloc-grants 32 _ m g
      ∙ rw
          (
            ◌>>◌,
            new_at_behind 32 bs (answer m).1 32 (omega arith),
            new_at_behind 32 bs (v (out_of_bounds ∷ [])) 48 (omega arith),
            kfree-new 32 bs (reported (v (out_of_bounds ∷ [])) (out_of_bounds ∷ [])),
          )
          refl

  pub poison-after_free :
      SlabCorruption.poison m
      ≡ done (ok tt) (
          on bs (freed 64) (
            reported
              (reported (v (use_after_free ∷ [])) (use_after_free ∷ []))
              (use_after_free ∷ [])))
  unfolding SlabCorruption.poison within
  poison-after_free =
      with_kmalloc-grants 64 _ m g
      ∙ rw
          (
            ◌>>◌,
            new-inside 64 bs (answer m).1 0 64 (omega arith),
            kfree-new 64 bs (answer m).1,
            freed-access 64 bs (answer m).1 (at 0) refl,
            freed-access 64 bs (v (use_after_free ∷ [])) (at 32) refl,
            freed-access 64 bs (reported (v (use_after_free ∷ [])) (use_after_free ∷ [])) (at 63)
                refl,
          )
          refl

-- A command, by the file's name and its own.
pub data Command : Type 0 where
  double_free_trigger double_free_complex use_after_free_trigger use_after_free_leak : Command
  invalid_free_offset buffer_overflow_overflow buffer_overflow_underflow : Command
  oob_read_overflow oob_read_underflow : Command
  slab_corruption_corrupt slab_corruption_redzones slab_corruption_poison : Command

-- What is written to the file, the file's handler, the object afterwards, and what is reported. The
-- number is how many bytes use_after_free.c reads before it finds a NUL in freed memory.
abbrev pub name_of : Command → List ℕ
name_of double_free_trigger = codes "trigger"
name_of double_free_complex = codes "complex"
name_of use_after_free_trigger = codes "trigger"
name_of use_after_free_leak = codes "leak"
name_of invalid_free_offset = codes "offset"
name_of buffer_overflow_overflow = codes "overflow"
name_of buffer_overflow_underflow = codes "underflow"
name_of oob_read_overflow = codes "overflow"
name_of oob_read_underflow = codes "underflow"
name_of slab_corruption_corrupt = codes "corrupt"
name_of slab_corruption_redzones = codes "redzones"
name_of slab_corruption_poison = codes "poison"

abbrev pub handler_of : (seen : ℕ) → Command → Write → M (Result ℕ)
handler_of seen double_free_trigger = DoubleFree.trigger_write
handler_of seen double_free_complex = DoubleFree.trigger_write
handler_of seen use_after_free_trigger = UseAfterFree.trigger_write seen
handler_of seen use_after_free_leak = UseAfterFree.trigger_write seen
handler_of seen invalid_free_offset = InvalidFree.trigger_write
handler_of seen buffer_overflow_overflow = BufferOverflow.trigger_write
handler_of seen buffer_overflow_underflow = BufferOverflow.trigger_write
handler_of seen oob_read_overflow = OobRead.trigger_write
handler_of seen oob_read_underflow = OobRead.trigger_write
handler_of seen slab_corruption_corrupt = SlabCorruption.trigger_write
handler_of seen slab_corruption_redzones = SlabCorruption.trigger_write
handler_of seen slab_corruption_poison = SlabCorruption.trigger_write

abbrev pub block_after : Command → Block
block_after double_free_trigger = freed 128
block_after double_free_complex = freed 64
block_after use_after_free_trigger = freed 128
block_after use_after_free_leak = fresh 256
block_after invalid_free_offset = fresh 64
block_after buffer_overflow_overflow = freed 64
block_after buffer_overflow_underflow = freed 64
block_after oob_read_overflow = freed 64
block_after oob_read_underflow = freed 64
block_after slab_corruption_corrupt = freed 128
block_after slab_corruption_redzones = freed 32
block_after slab_corruption_poison = freed 64

abbrev pub reports_of : (seen : ℕ) → Command → List Report
reports_of seen double_free_trigger = double_free ∷ []
reports_of seen double_free_complex = double_free ∷ []
reports_of seen use_after_free_trigger =
    replicate seen use_after_free ++ replicate 30 use_after_free
reports_of seen use_after_free_leak = []
reports_of seen invalid_free_offset = invalid_free ∷ []
reports_of seen buffer_overflow_overflow = replicate 64 out_of_bounds
reports_of seen buffer_overflow_underflow = replicate 64 out_of_bounds
reports_of seen oob_read_overflow = replicate 64 out_of_bounds
reports_of seen oob_read_underflow = replicate 2 out_of_bounds
reports_of seen slab_corruption_corrupt = replicate 2 out_of_bounds
reports_of seen slab_corruption_redzones = replicate 2 out_of_bounds
reports_of seen slab_corruption_poison = replicate 3 use_after_free
