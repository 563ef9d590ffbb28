-- ===== src/Sync/Refcount/Examples.antt =====
-- Runs of four threads over it.
use linux_kernel_prog.Prelude.{zero, suc, ◌+◌, ◌≡◌, refl, true, false, some, [], ◌∷◌, arith, weigh}
use linux_kernel_prog.Sync.Refcount.{Memory, create_resource, get_resource, unload}
use linux_kernel_prog.Sync.Refcount.Sample.{counter}
use linux_kernel_prog.Sync.Refcount.Threads.{
  idle, held, finished, acquire, stop, System, run, leave, Reach, start, later,
}
use linux_kernel_prog.Sync.Refcount.Safety.{
  holds, AllFinished, loaded_module, no_use_after_free, shared-live, unloaded-freed,
}

abbrev resource : Memory
resource = record {
  refcount = 1;
  resource_id = 1000;
  description = [];
  active = true;
  live = true;
  shared = false;
}

made : create_resource true 1000 [] ≡ some resource
unfolding create_resource
made = refl

-- The second thread has got the resource.
abbrev busy : System
busy = record {
  mem = record resource { shared = true; refcount = 2 };
  pcs = idle 0 ∷ held 0 ∷ idle 0 ∷ idle 0 ∷ [];
}

busy-Reach : Reach counter (loaded_module 4 resource) busy
unfolding loaded_module get_resource
busy-Reach = later start (run 1 {p = idle 0} refl (acquire (omega arith) refl))

no_use_after_free_example : busy.mem.live ≡ true
no_use_after_free_example =
    no_use_after_free counter 4 1000 [] (omega arith) made 1 busy-Reach refl refl

shared-live_example :
    (busy.mem.live ≡ true)
    × ((get_resource counter busy.mem).0 ≡ true)
    × (busy.mem.refcount ≡ weigh holds busy.pcs + 1)
shared-live_example = shared-live counter 4 1000 [] (omega arith) made busy-Reach refl

-- One thread, which ends at once; then the module is unloaded.
abbrev ended : System
ended = record { mem = record resource { shared = true }; pcs = finished ∷ [] }

abbrev gone : System
gone = record ended { mem = unload counter ended.mem }

ended-AllFinished : AllFinished (finished ∷ [])
ended-AllFinished zero lt = refl
ended-AllFinished (suc i) lt = absurd (omega arith)

gone-Reach : Reach counter (loaded_module 1 resource) gone
unfolding loaded_module
gone-Reach = later (later start (run 0 {p = idle 0} refl stop)) (leave ended-AllFinished)

unloaded-freed_example : gone.mem.live ≡ false
unfolding unload
unloaded-freed_example =
    unloaded-freed counter 1 1000 [] (omega arith) made gone-Reach ended-AllFinished refl
