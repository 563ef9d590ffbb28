-- ===== src/Sync/Kthreads.antt =====
-- How the programs under sync start their threads: the loops of refcount_example_init,
-- lockfree_list_init and lockless_queue_init with their cleanup, and kref_example_init.
-- A thread is its index. What `kthread_run` returns for it is an argument, its error or `none`.
pub mod Cleanup
mod Examples
use linux_kernel_prog.Prelude.{
  ℕ, zero, suc, ◌+◌, ◌≡◌, Bool, true, false, Option, none, some, List, [], ◌∷◌, ◌++◌, get_elem?,
  codes,
}
use linux_kernel_prog.Kernel.{Result, ok, err, Errno}
use linux_kernel_prog.Sync.Refcount.{RefcountApi, Memory, create_resource, put_resource}

-- What a load comes to: its result, the threads that run, and those that were stopped, in order.
-- The result is `none` where it is read from outside of an array.
pub record Load : Type 0 where
  pub ret : Option (Result ℕ)
  pub running : List ℕ
  pub stopped : List ℕ

-- `PTR_ERR(threads[i])`: what is read there. The index is given as i + 1, so that 0 stands for -1,
-- and the array is the list of what `kthread_run` has returned, 0 for a thread.
abbrev pub ptr_err : (index_plus_one : ℕ) → List (Result ℕ) → Option (Result ℕ)
ptr_err zero threads = none
ptr_err (suc i) threads = get_elem? threads i

-- `while (--i >= 0) kthread_stop(threads[i]);`, with the threads stopped and the last i, plus one.
unfoldable pub stop_down : ℕ → List ℕ × ℕ
stop_down zero = ([], 0)
stop_down (suc i) = let r = stop_down i in (i ∷ r.0, r.1)

-- `for (i = first; ...; i++)`: the index of the first thread that could not be created, if any, and
-- the array so far.
unfoldable pub run_threads :
    (create : ℕ → Option Errno) (rounds first : ℕ) (threads : List (Result ℕ))
    → Option ℕ × List (Result ℕ)
run_threads create zero i threads = (none, threads)
run_threads create (suc k) i threads =
    let rest = run_threads create k (suc i) (threads ++ ok 0 ∷ []) in
    elim (create i) [ none ↦ rest | some e ↦ (some i, threads ++ err e ∷ []) ]

-- The indices below a bound.
abbrev pub range : ℕ → List ℕ
range zero = []
range (suc n) = range n ++ n ∷ []

abbrev pub all_running : ℕ → Load
all_running n = record { ret = some (ok 0); running = range n; stopped = [] }

-- The cleanup behind the failed thread `i`, and the return.
unfoldable pub clean_up : (i : ℕ) → List (Result ℕ) → Load
unfolding stop_down
clean_up i threads =
    let (stopped, last) = stop_down i in
    record { ret = ptr_err last threads; running = []; stopped = stopped }

-- Behind the loop over `n` threads.
unfoldable pub conclude : (n : ℕ) → Option ℕ × List (Result ℕ) → Load
unfolding clean_up
conclude n (none, threads) = all_running n
conclude n (some i, threads) = clean_up i threads

-- Three workers.
unfoldable pub lockfree_list_init : (create : ℕ → Option Errno) → Load
unfolding conclude
lockfree_list_init create = conclude 3 (run_threads create 3 0 [])

-- Where a thread fails the resource is put back.
unfoldable pub after_threads : RefcountApi → Memory → Option ℕ → Memory
unfolding put_resource
after_threads api m none = m
after_threads api m (some i) = put_resource api m

-- Four users of the resource.
unfoldable pub refcount_example_init :
    (api : RefcountApi) (allocated : Bool) (create : ℕ → Option Errno) → Load × Option Memory
unfolding conclude after_threads create_resource
refcount_example_init api allocated create =
    elim (create_resource allocated 1000 (codes "Shared System Resource")) [
      | none ↦ (record { ret = some (err Errno.enomem); running = []; stopped = [] }, none)
      | some res ↦
          let loop = run_threads create 4 0 [] in
          (conclude 4 loop, some (after_threads api (record res { shared = true }) loop.0))
    ]

-- Behind the loop over the consumers, with the producers running. The cleanup goes on to the
-- producers with the same `i`, which is 2 when the result is read from the consumers' array.
unfoldable pub conclude_consumers : Option ℕ × List (Result ℕ) → Load × Load
unfolding stop_down
conclude_consumers (none, threads) = (all_running 2, all_running 2)
conclude_consumers (some i, threads) = (
  record { ret = ptr_err 3 threads; running = []; stopped = range 2 },
  record { ret = ptr_err 3 threads; running = []; stopped = (stop_down i).0 },
)

-- Behind the loop over the producers.
unfoldable pub conclude_producers :
    (consumer : ℕ → Option Errno) → Option ℕ × List (Result ℕ) → Load × Load
unfolding clean_up conclude_consumers
conclude_producers consumer (none, threads) = conclude_consumers (run_threads consumer 2 0 [])
conclude_producers consumer (some i, threads) =
    (clean_up i threads, record (clean_up i threads) { stopped = [] })

-- Two producers, then two consumers: the producers' part and the consumers' part of the load.
unfoldable pub lockless_queue_init : (producer consumer : ℕ → Option Errno) → Load × Load
unfolding conclude_producers
lockless_queue_init producer consumer = conclude_producers consumer (run_threads producer 2 0 [])

-- `kref_example_init`: three threads, each with a cleanup of its own. The last part says whether
-- the reference to the object has been put.
unfoldable pub kref_example_init :
    (allocated : Bool) (first second third : Option Errno) → Load × Bool
kref_example_init false first second third =
    (record { ret = some (err Errno.enomem); running = []; stopped = [] }, false)
kref_example_init true (some e) second third =
    (record { ret = some (err e); running = []; stopped = [] }, true)
kref_example_init true none (some e) third =
    (record { ret = some (err e); running = []; stopped = 0 ∷ [] }, true)
kref_example_init true none none (some e) =
    (record { ret = some (err e); running = []; stopped = 0 ∷ 1 ∷ [] }, true)
kref_example_init true none none none = (all_running 3, false)
