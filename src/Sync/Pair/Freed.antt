-- ===== src/Sync/Pair/Freed.antt =====
-- The unload of kthread_semlck.c and kthread_spin.c frees the structure under its users.
use linux_kernel_prog.Prelude.{◌≡◌, refl, Bool, true, false, Bool-cases, inl, inr}
use linux_kernel_prog.Sync.Pair.{Writer, System, started, Reach, start, later, write_b_freed, exit}

-- From every reachable state in which the writer has written the first field and not the second, an
-- unload can come before its next step, which then writes to freed memory.
pub pair-freed :
    {in_structure : Bool} (s : System)
    → Reach in_structure started s
    → s.writer ≡ Writer.wrote_a
    → (t : System) × Reach in_structure s t × (t.used_freed ≡ true)
pair-freed s r at = elim (Bool-cases s.live) [
  | inl e ↦ (
    record s { live = false; writer = Writer.wrote_b; used_freed = true },
    later (later start (exit e)) (write_b_freed at refl),
    refl,
  )
  | inr e ↦ (
    record s { writer = Writer.wrote_b; used_freed = true },
    later start (write_b_freed at e),
    refl,
  )
]
