-- ===== src/Sync/Refcount/Threads.antt =====
-- The threads of refcount_example.c as a step relation.
use linux_kernel_prog.Prelude.{
  ℕ, suc, ◌+◌, ◌%◌, ◌^◌, ◌<◌, ◌≡◌, true, false, some, List, length, get_elem?, set,
}
use linux_kernel_prog.Sync.Refcount.{
  RefcountApi, Memory, free_resource, get_resource, drop_reference, unload,
}

-- Where a thread stands in `user_thread_fn`, with the number of its operations so far.
pub data Pc : Type 0 where
  idle : ℕ → Pc  -- head of the loop
  held : ℕ → Pc  -- `get_resource` has returned the resource
  loaded : ℕ → ℕ → Pc  -- `resource_id` has been read
  releasing : ℕ → Pc  -- before the decrement of `put_resource`
  freeing : ℕ → Pc  -- before `free_resource`
  finished : Pc

-- One step of the thread with a given id.
pub data Move (api : RefcountApi) (thread_id : ℕ) (m : Memory) : Pc → Memory → Pc → Type 0 where
  acquire :
      {k : ℕ}
      → k < 8
      → (get_resource api m).0 ≡ true
      → Move api thread_id m (idle k) (get_resource api m).1 (held k)
  refused :
      {k : ℕ}
      → k < 8
      → (get_resource api m).0 ≡ false
      → Move api thread_id m (idle k) (get_resource api m).1 (idle k)
  stop : {k : ℕ} → Move api thread_id m (idle k) m finished
  inactive : {k : ℕ} → m.active ≡ false → Move api thread_id m (held k) m (releasing k)
  load : {k : ℕ} → m.active ≡ true → Move api thread_id m (held k) m (loaded k m.resource_id)
  write :
      {k x : ℕ}
      → Move api thread_id m
          (loaded k x)
          (record m { resource_id = (x + thread_id) % 2 ^ 32 })
          (releasing k)
  drop_last :
      {k : ℕ}
      → (drop_reference api m).0 ≡ true
      → Move api thread_id m (releasing k) (drop_reference api m).1 (freeing k)
  drop :
      {k : ℕ}
      → (drop_reference api m).0 ≡ false
      → Move api thread_id m (releasing k) (drop_reference api m).1 (idle (suc k))
  free : {k : ℕ} → Move api thread_id m (freeing k) (free_resource m) (idle (suc k))

pub record System : Type 0 where
  pub mem : Memory
  pub pcs : List Pc

-- `kthread_stop` waits for a thread's end, so the unload is reached when all threads have ended.
pub data Step (api : RefcountApi) (s : System) : System → Type 0 where
  run :
      (i : ℕ) {p p' : Pc} {m' : Memory}
      → get_elem? s.pcs i ≡ some p
      → Move api (suc i) s.mem p m' p'
      → Step api s (record { mem = m'; pcs = set s.pcs i p' })
  leave :
      ((i : ℕ) → i < length s.pcs → get_elem? s.pcs i ≡ some finished)
      → Step api s (record s { mem = unload api s.mem })

pub data Reach (api : RefcountApi) (s : System) : System → Type 0 where
  start : Reach api s s
  later : {t u : System} → Reach api s t → Step api t u → Reach api s u
