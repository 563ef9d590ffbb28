-- ===== src/Sync/LocklessQueue/Traffic.antt =====
-- The threads of lockless_queue.c in turns, with the unload as one more thread.
use linux_kernel_prog.Prelude.{ℕ, zero, suc, ◌<◌, ◌≡◌, Bool, true, false}
use linux_kernel_prog.Sync.LocklessQueue.{Slot, first, second, System, producer_fn, consumer_fn}

-- Whether the thread at a place of the order of `lockless_queue_exit` has ended.
abbrev pub ended : System → ℕ → Bool
ended s zero = (s.producers first).exited
ended s (suc zero) = (s.producers second).exited
ended s (suc (suc zero)) = (s.consumers first).exited
ended s (suc (suc (suc n))) = (s.consumers second).exited

-- A round of a thread that has not ended, with any answer of the queue, or the next `kthread_stop` of
-- `lockless_queue_exit`, which comes when the thread before it has ended.
pub data Step (s : System) : System → Type 0 where
  producer_turn :
      (put : Bool) (w : Slot) → (s.producers w).exited ≡ false → Step s (producer_fn put w s)
  consumer_turn :
      (got : Bool) (w : Slot) → (s.consumers w).exited ≡ false → Step s (consumer_fn got w s)
  stop_first : s.stops ≡ 0 → Step s (record s { stops = 1 })
  stop_next :
      {n : ℕ}
      → s.stops ≡ suc n
      → n < 3
      → ended s n ≡ true
      → Step s (record s { stops = suc (suc n) })

pub data Reach (s : System) : System → Type 0 where
  start : Reach s s
  later : {t u : System} → Reach s t → Step t u → Reach s u
