-- ===== src/Interfaces/Counter/History.antt =====
-- The counter as a function of the whole history of writes, newest first, and the agreement of the
-- three interfaces. `scan` is the kernel's number scanner.
use linux_kernel_prog.Prelude.{
  ℕ, suc, ◌+◌, ◌%◌, ◌^◌, ◌<◌, ◌≡◌, refl, Option, none, some, List, [], ◌∷◌, arith, ◌==◌, leb,
  if◌then◌else◌, ◌⊎◌,
}
use linux_kernel_prog.Kernel.{ok, err, Errno}
use linux_kernel_prog.Interfaces.Counter.{input_size, Write, c_string}
use linux_kernel_prog.Interfaces.Counter.Procfs
use linux_kernel_prog.Interfaces.Counter.Debugfs
use linux_kernel_prog.Interfaces.Counter.Sysfs

-- What a write asks for.
pub data Command : Type 0 where
  reset : Command
  increment : Command
  rejected : Command

module _ (scan : List ℕ → Option ℕ) where
  unfoldable pub command : Write → Command
  command w = if leb input_size w.bytes then rejected else elim w.copied [
    | none ↦ rejected
    | some input ↦ elim (scan (c_string input)) [
      | none ↦ rejected
      | some value ↦ if value == 0 then reset else if value == 1 then increment else rejected
    ]
  ]

  -- The counter of a module just loaded, after the writes.
  unfoldable pub procfs_counter : List Write → ℕ
  procfs_counter [] = 0
  procfs_counter (w ∷ earlier) = (Procfs.counter_write scan w (procfs_counter earlier)).1

  unfoldable pub commands : List Write → List Command
  commands [] = []
  commands (w ∷ earlier) = command w ∷ commands earlier

-- The increments since the last reset.
unfoldable pub increments : List Command → ℕ
increments [] = 0
increments (reset ∷ earlier) = 0
increments (increment ∷ earlier) = suc (increments earlier)
increments (rejected ∷ earlier) = increments earlier

module _ (scan : List ℕ → Option ℕ) where
  -- After any history of writes the procfs counter is the number of accepted increments since the
  -- last accepted reset, modulo 2^32.
  pub procfs_counter-increments :
      (ws : List Write) → procfs_counter scan ws ≡ increments (commands scan ws) % 2 ^ 32
  unfolding procfs_counter commands increments command Procfs.counter_write
  procfs_counter-increments [] = refl
  procfs_counter-increments (w ∷ ws) = ground (arith, procfs_counter-increments ws)

  -- Where a write is shorter than the input buffer and its bytes can be copied, the three interfaces
  -- give it the same result and leave the same counter.
  pub value_store-counter_write :
      (w : Write) (input : List ℕ) (counter : ℕ)
      → w.bytes < input_size
      → w.copied ≡ some input
      → (Sysfs.value_store scan input w.bytes counter ≡ Procfs.counter_write scan w counter)
        × (Debugfs.counter_write scan w counter ≡ Procfs.counter_write scan w counter)
  unfolding Procfs.counter_write Debugfs.counter_write Sysfs.value_store
  value_store-counter_write w input counter h e = (ground arith, refl)

  -- A write that returns an error leaves the counter as it was.
  pub counter_write-err :
      (w : Write) (counter : ℕ) {e : Errno}
      → (Procfs.counter_write scan w counter).0 ≡ err e
      → (Procfs.counter_write scan w counter).1 ≡ counter
  unfolding Procfs.counter_write
  counter_write-err w counter h = ground arith

  -- A write that returns a count returns its own byte count, below the size of the input buffer,
  -- and leaves the counter either 0 or one more than before, modulo 2^32.
  pub counter_write-ok :
      (w : Write) (counter : ℕ) {n : ℕ}
      → (Procfs.counter_write scan w counter).0 ≡ ok n
      → (n ≡ w.bytes)
        × (n < input_size)
        × (((Procfs.counter_write scan w counter).1 ≡ 0)
            ⊎ ((Procfs.counter_write scan w counter).1 ≡ (counter + 1) % 2 ^ 32))
  unfolding Procfs.counter_write
  counter_write-ok w counter h = ground arith
