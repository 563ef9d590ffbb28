-- ===== src/Sync/Kref/Workers.antt =====
-- The workers, the load and the unload of kref_example.c as a step relation.
use linux_kernel_prog.Prelude.{
  ℕ, suc, ◌+◌, ◌%◌, ◌^◌, ◌<◌, ◌≡◌, true, false, some, List, [], ◌∷◌, ◌++◌, length, get_elem?, set,
}
use linux_kernel_prog.Sync.Kref.{
  KrefApi, MyObject, my_object_release, take_reference, put_reference, kref_put, kref_example_exit,
}

-- Where a thread stands in `worker_thread`, with the number of its rounds so far.
pub data Pc : Type 0 where
  top : ℕ → Pc  -- head of the loop
  getting : ℕ → Pc  -- `global_obj` was found set
  holding : ℕ → Pc  -- `kref_get` has returned; `global_obj` is about to be read again
  using : ℕ → Pc  -- `obj` is set
  modifying : ℕ → ℕ → Pc  -- `obj->data` has been read
  releasing : ℕ → Pc  -- before the decrement of `kref_put`
  freeing : ℕ → Pc  -- before `my_object_release`
  crashed : Pc  -- at a null pointer
  finished : Pc

-- One step of the worker with a given id. `kthread_should_stop` may say anything at any time.
pub data WorkerStep (api : KrefApi) (thread_id : ℕ) (o : MyObject)
    : Pc → MyObject → Pc → Type 0 where
  find : {k : ℕ} → k < 5 → o.global_obj ≡ true → WorkerStep api thread_id o (top k) o (getting k)
  find_null :
      {k : ℕ} → k < 5 → o.global_obj ≡ false → WorkerStep api thread_id o (top k) o (top (suc k))
  leave : {k : ℕ} → WorkerStep api thread_id o (top k) o finished
  get :
      {k : ℕ}
      → o.global_obj ≡ true
      → WorkerStep api thread_id o (getting k) (take_reference api o) (holding k)
  get_null : {k : ℕ} → o.global_obj ≡ false → WorkerStep api thread_id o (getting k) o crashed
  assign : {k : ℕ} → o.global_obj ≡ true → WorkerStep api thread_id o (holding k) o (using k)
  assign_null : {k : ℕ} → o.global_obj ≡ false → WorkerStep api thread_id o (holding k) o crashed
  load : {k : ℕ} → WorkerStep api thread_id o (using k) o (modifying k o.data_)
  write :
      {k x : ℕ}
      → WorkerStep api thread_id o
          (modifying k x)
          (record o { data_ = (x + thread_id) % 2 ^ 32 })
          (releasing k)
  drop_last :
      {k : ℕ}
      → (put_reference api o).0 ≡ true
      → WorkerStep api thread_id o (releasing k) (put_reference api o).1 (freeing k)
  drop :
      {k : ℕ}
      → (put_reference api o).0 ≡ false
      → WorkerStep api thread_id o (releasing k) (put_reference api o).1 (top (suc k))
  free : {k : ℕ} → WorkerStep api thread_id o (freeing k) (my_object_release o) (top (suc k))

-- How far the module is: threads are being created, all of them run, one could not be created, or
-- the module has put its reference.
pub data Stage : Type 0 where
  loading : Stage
  running : Stage
  failed : Stage
  gone : Stage

pub record System : Type 0 where
  pub obj : MyObject
  pub workers : List Pc
  pub stage : Stage

abbrev pub AllFinished : List Pc → Type 0
AllFinished pcs = (i : ℕ) → i < length pcs → get_elem? pcs i ≡ some finished

-- `kref_example_init` with its failures, and `kref_example_exit`; the workers start at once, as
-- `kthread_run` wakes them. `kthread_stop` waits for a thread's end, so that the reference is put
-- when all workers have ended.
pub data Step (api : KrefApi) (s : System) : System → Type 0 where
  work :
      (i : ℕ) {p p' : Pc} {o : MyObject}
      → get_elem? s.workers i ≡ some p
      → WorkerStep api (suc i) s.obj p o p'
      → Step api s (record s { obj = o; workers = set s.workers i p' })
  create :
      s.stage ≡ loading
      → length s.workers < 3
      → Step api s (record s { workers = s.workers ++ top 0 ∷ [] })
  create_fails : s.stage ≡ loading → length s.workers < 3 → Step api s (record s { stage = failed })
  loaded : s.stage ≡ loading → length s.workers ≡ 3 → Step api s (record s { stage = running })
  back_out :
      s.stage ≡ failed
      → AllFinished s.workers
      → Step api s (record s { obj = kref_put api s.obj; stage = gone })
  unload :
      s.stage ≡ running
      → AllFinished s.workers
      → Step api s (record s { obj = kref_example_exit api s.obj; stage = gone })

pub data Reach (api : KrefApi) (s : System) : System → Type 0 where
  start : Reach api s s
  later : {t u : System} → Reach api s t → Step api t u → Reach api s u

-- `kref_example_init` behind the creation of the object.
unfoldable pub published : MyObject → System
published o = record { obj = record o { global_obj = true }; workers = []; stage = loading }
