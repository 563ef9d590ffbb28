-- ===== src/Sync/Pair/Examples.antt =====
-- The theorems on the writer and the reader at short runs.
use linux_kernel_prog.Prelude.{◌≡◌, refl, true, inl}
use linux_kernel_prog.Sync.Pair.{
  Writer, Reader, System, started, Step, Reach, start, later, write_lock, write_a, write_b,
  write_unlock, read_lock,
}
use linux_kernel_prog.Sync.Pair.Consistent.{Whole, pair-Whole}
use linux_kernel_prog.Sync.Pair.Freed.{pair-freed}

-- The writer is between its two writes.
abbrev halfway : System
halfway = record started { p = record { a = 10; b = 0 }; held = true; writer = Writer.wrote_a }

halfway-Reach : Reach true started halfway
halfway-Reach = later (later start (write_lock refl (inl refl))) (write_a refl refl)

-- The reader has read both fields behind the writer.
abbrev both_read : System
both_read = record started {
  p = record { a = 10; b = 20 };
  held = true;
  writer = Writer.ended;
  reader = Reader.read_b 10 20;
}

both_read-Reach : Reach true started both_read
both_read-Reach =
    later
      (later
        (later (later (later halfway-Reach (write_b refl refl)) (write_unlock refl))
          (read_lock refl (inl refl)))
        (Step.read_a refl refl))
      (Step.read_b refl refl)

pair-Whole_example : Whole 10 20
pair-Whole_example = pair-Whole 10 20 both_read-Reach refl refl

pair-freed_example : (t : System) × Reach true halfway t × (t.used_freed ≡ true)
pair-freed_example = pair-freed halfway halfway-Reach refl
