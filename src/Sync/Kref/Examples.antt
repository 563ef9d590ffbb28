-- ===== src/Sync/Kref/Examples.antt =====
-- A load whose second thread cannot be created, with the first worker in the middle of a round.
use linux_kernel_prog.Prelude.{
  ◌+◌, ◌-◌, ◌*◌, ◌^◌, ◌≤◌, ◌≡◌, refl, true, false, not, some, [], ◌∷◌, take, codes, weigh, arith,
  ◌==◌,
}
use linux_kernel_prog.Sync.Kref.{KrefApi, MyObject, create_object, take_reference}
use linux_kernel_prog.Sync.Kref.Workers.{
  holding, failed, System, Reach, start, later, create, create_fails, work, top, getting, find, get,
  published,
}
use linux_kernel_prog.Sync.Kref.Weights.{holds, touches, crashes, bit}
use linux_kernel_prog.Sync.Kref.Kept.{is_gone, kref-kept}

abbrev counter : KrefApi
counter = record {
  limit = 2 ^ 31;
  kref_get = λ n. n + 1;
  dec_and_test = λ n. (n == 1, n - 1);
  get_pos = λ n h k. refl;
  dec_pos = λ n h k. refl;
}

abbrev object : MyObject
object = record {
  refcount = 1;
  data_ = 100;
  name = take 31 (codes "shared_object");
  live = true;
  global_obj = false;
}

made : create_object true (codes "shared_object") 100 ≡ some object
unfolding create_object
made = refl

abbrev held : System
held = record {
  obj = record object { refcount = 2; global_obj = true };
  workers = holding 0 ∷ [];
  stage = failed;
}

held-Reach : Reach counter (published object) held
unfolding published take_reference
held-Reach =
    later
      (later
        (later (later start (create refl (omega arith)))
          (work 0 {p = top 0} refl (find (omega arith) refl)))
        (work 0 {p = getting 0} refl (get refl)))
      (create_fails refl (omega arith))

kref-kept_example :
    (held.obj.live ≡ not (is_gone held.stage))
    × (held.obj.refcount ≡ bit (not (is_gone held.stage)) + weigh holds held.workers)
    × (weigh crashes held.workers ≡ 0)
    × (weigh touches held.workers ≤ 3 * bit held.obj.live)
kref-kept_example = kref-kept counter (omega arith) (codes "shared_object") 100 made held-Reach
