-- ===== src/Buggy/Memory/Intended.antt =====
-- Every command of the table is reported for its intended error and for nothing else.
use mathlib.Core.List.{append_assoc, append-nil}
use linux_kernel_prog.Prelude.{
  ℕ, ◌≡◌, ◌<◌, ◌≤◌, ap, ◌∙◌, sym, some, List, [], ◌∷◌, ◌++◌, true, replicate,
}
use linux_kernel_prog.Kernel.{ok}
use linux_kernel_prog.Interfaces.Counter.{Write}
use linux_kernel_prog.Buggy.Checker.{
  Report, out_of_bounds, use_after_free, Block, Machine, done, answer,
}
use linux_kernel_prog.Buggy.Checker.Laws.{reported, grants, fresh, freed, serve-command}
use linux_kernel_prog.Buggy.Checker.Newest.{on}
use linux_kernel_prog.Buggy.Memory.Reports.{
  trigger-double, complex-double, trigger-after_free, leak-kept, offset-invalid, overflow-behind,
  underflow-before, oob_read-behind, oob_read-before,
}
use linux_kernel_prog.Buggy.Memory.Table.{
  Command, double_free_trigger, double_free_complex, use_after_free_trigger, use_after_free_leak,
  invalid_free_offset, buffer_overflow_overflow, buffer_overflow_underflow, oob_read_overflow,
  oob_read_underflow, slab_corruption_corrupt, slab_corruption_redzones, slab_corruption_poison,
  name_of, handler_of, block_after, reports_of, corrupt-behind, redzones-behind, poison-after_free,
}
use linux_kernel_prog.Buggy.Memory.DoubleFree
use linux_kernel_prog.Buggy.Memory.UseAfterFree
use linux_kernel_prog.Buggy.Memory.InvalidFree
use linux_kernel_prog.Buggy.Memory.BufferOverflow
use linux_kernel_prog.Buggy.Memory.OobRead
use linux_kernel_prog.Buggy.Memory.SlabCorruption

-- The machine after a command: the new object, and the reports.
abbrev pub after : (seen : ℕ) → Command → Machine → Machine
after seen c m = on m.blocks (block_after c) (reported (answer m).1 (reports_of seen c))

-- Reports in two goes.
at_once :
    (bs : List Block) (b : Block) (v : Machine) (rs ss : List Report)
    → on bs b (reported (reported v rs) ss) ≡ on bs b (reported v (rs ++ ss))
at_once bs b v rs ss = ap (λ r. on bs b (record v { reports = r })) (append_assoc v.reports rs ss)

none_at_all : (bs : List Block) (b : Block) (v : Machine) → on bs b v ≡ on bs b (reported v [])
none_at_all bs b v = ap (λ r. on bs b (record v { reports = r })) (sym (append-nil v.reports))

-- When the allocator grants its object, and where use_after_free.c finds a NUL within the memory that
-- it has freed, a command of the table, whatever text follows it in a write of less than 16 bytes,
-- succeeds, leaves the object freed or allocated as the table says, and makes the wrong accesses and
-- frees of the table and no other, one for each byte, or for each word where it stores words.
pub commands-reports :
    (seen : ℕ) (c : Command) (w : Write) (rest : List ℕ) (m : Machine)
    → seen ≤ 128
    → w.bytes < 16
    → w.copied ≡ some (name_of c ++ rest)
    → grants m ≡ true
    → handler_of seen c w m ≡ done (ok w.bytes) (after seen c m)
unfolding DoubleFree.trigger_write DoubleFree.command UseAfterFree.trigger_write
    UseAfterFree.command InvalidFree.trigger_write InvalidFree.command BufferOverflow.trigger_write
    BufferOverflow.command OobRead.trigger_write OobRead.command SlabCorruption.trigger_write
    SlabCorruption.command
commands-reports seen double_free_trigger w rest m inside short copied g =
    serve-command 16 DoubleFree.command w m short copied (trigger-double m g)
commands-reports seen double_free_complex w rest m inside short copied g =
    serve-command 16 DoubleFree.command w m short copied (complex-double m g)
commands-reports seen use_after_free_trigger w rest m inside short copied g =
    serve-command 16 (UseAfterFree.command seen) w m short copied (
      trigger-after_free m g seen inside
      ∙ ap (done (ok tt)) (
          at_once m.blocks (freed 128) (answer m).1 (replicate seen use_after_free)
            (replicate 30 use_after_free)))
commands-reports seen use_after_free_leak w rest m inside short copied g =
    serve-command 16 (UseAfterFree.command seen) w m short copied
      (leak-kept m g ∙ ap (done (ok tt)) (none_at_all m.blocks (fresh 256) (answer m).1))
commands-reports seen invalid_free_offset w rest m inside short copied g =
    serve-command 16 InvalidFree.command w m short copied (offset-invalid m g)
commands-reports seen buffer_overflow_overflow w rest m inside short copied g =
    serve-command 16 BufferOverflow.command w m short copied (overflow-behind m g)
commands-reports seen buffer_overflow_underflow w rest m inside short copied g =
    serve-command 16 BufferOverflow.command w m short copied (underflow-before m g)
commands-reports seen oob_read_overflow w rest m inside short copied g =
    serve-command 16 OobRead.command w m short copied (oob_read-behind m g)
commands-reports seen oob_read_underflow w rest m inside short copied g =
    serve-command 16 OobRead.command w m short copied (
      oob_read-before m g
      ∙ ap (done (ok tt))
          (at_once m.blocks (freed 64) (answer m).1 (out_of_bounds ∷ []) (out_of_bounds ∷ [])))
commands-reports seen slab_corruption_corrupt w rest m inside short copied g =
    serve-command 16 SlabCorruption.command w m short copied (
      corrupt-behind m g
      ∙ ap (done (ok tt))
          (at_once m.blocks (freed 128) (answer m).1 (out_of_bounds ∷ []) (out_of_bounds ∷ [])))
commands-reports seen slab_corruption_redzones w rest m inside short copied g =
    serve-command 16 SlabCorruption.command w m short copied (
      redzones-behind m g
      ∙ ap (done (ok tt))
          (at_once m.blocks (freed 32) (answer m).1 (out_of_bounds ∷ []) (out_of_bounds ∷ [])))
commands-reports seen slab_corruption_poison w rest m inside short copied g =
    serve-command 16 SlabCorruption.command w m short copied (
      poison-after_free m g
      ∙ ap (done (ok tt)) (
          at_once m.blocks (freed 64) (reported (answer m).1 (use_after_free ∷ []))
            (use_after_free ∷ []) (use_after_free ∷ [])
          ∙ at_once m.blocks (freed 64) (answer m).1 (use_after_free ∷ [])
              (use_after_free ∷ use_after_free ∷ [])))
