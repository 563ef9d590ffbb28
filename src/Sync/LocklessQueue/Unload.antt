-- ===== src/Sync/LocklessQueue/Unload.antt =====
-- The unload of lockless_queue.c comes to its end.
use linux_kernel_prog.Prelude.{ℕ, suc, ◌≤◌, ◌<◌, ◌≡◌, true}
use linux_kernel_prog.Sync.LocklessQueue.{System}
use linux_kernel_prog.Sync.LocklessQueue.Traffic.{ended}

-- The threads before the one that is being stopped have ended.
record IsOrdered (s : System) : Type 0 where
  at_most : s.stops ≤ 4
  before : (k : ℕ) → suc k < s.stops → ended s k ≡ true

-- The unload has ended: it has stopped all four threads, and they have ended.
pub record IsUnloaded (s : System) : Type 0 where
  pub all_stopped : s.stops ≡ 4
  pub all_ended : (k : ℕ) → k < 4 → ended s k ≡ true
