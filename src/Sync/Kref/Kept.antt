-- ===== src/Sync/Kref/Kept.antt =====
-- How long the object of kref_example.c is kept.
use linux_kernel_prog.Prelude.{
  ℕ, suc, ◌+◌, ◌*◌, ◌≤◌, ◌<◌, ◌≡◌, refl, Bool, true, false, not, some, List, [], ◌∷◌, ◌++◌, length,
  get_elem?, set, arith, weigh, weigh-set, weigh-ge, weigh-le, length-set, length-append, ◌==◌,
  if◌then◌else◌,
}
use linux_kernel_prog.Sync.Kref.{
  KrefApi, MyObject, my_object_release, take_reference, put_reference, kref_put, kref_example_exit,
  create_object,
}
use linux_kernel_prog.Sync.Kref.Workers.{
  Pc, top, WorkerStep, find, find_null, leave, get, get_null, assign, assign_null, load, write,
  drop_last, drop, free, Stage, loading, running, failed, gone, System, AllFinished, Step, work,
  create, create_fails, loaded, back_out, unload, Reach, start, later, published,
}
use linux_kernel_prog.Sync.Kref.Weights.{
  holds, frees, touches, crashes, busy, bit, weigh-append, weigh-AllFinished, weigh-le_busy,
}

abbrev pub is_gone : Stage → Bool
is_gone gone = true
is_gone _ = false

record IsKept (s : System) : Type 0 where
  few : length s.workers ≤ 3
  counted : s.obj.refcount ≡ bit (not (is_gone s.stage)) + weigh holds s.workers
  owned : bit s.obj.live ≡ (if s.obj.refcount == 0 then 0 else 1) + weigh frees s.workers
  set_until : bit (not (is_gone s.stage)) ≤ bit s.obj.global_obj
  ended : weigh busy s.workers ≤ 3 * bit (not (is_gone s.stage))
  none_crashed : weigh crashes s.workers ≡ 0

-- What a write of one program counter does to the weights.
record Turn (pcs : List Pc) (i : ℕ) (p p' : Pc) : Type 0 where
  same : length (set pcs i p') ≡ length pcs
  holders : weigh holds (set pcs i p') + holds p ≡ weigh holds pcs + holds p'
  freers : weigh frees (set pcs i p') + frees p ≡ weigh frees pcs + frees p'
  at_work : weigh busy (set pcs i p') + busy p ≡ weigh busy pcs + busy p'
  crashers : weigh crashes (set pcs i p') + crashes p ≡ weigh crashes pcs + crashes p'
  some_held : weigh holds pcs ≤ length pcs
  some_hold : weigh holds (set pcs i p') ≤ length (set pcs i p')
  holder : holds p ≤ weigh holds pcs
  freer : frees p ≤ weigh frees pcs
  worker : busy p ≤ weigh busy pcs
  crasher : crashes p ≤ weigh crashes pcs

turn : (pcs : List Pc) (i : ℕ) {p : Pc} (p' : Pc) → get_elem? pcs i ≡ some p → Turn pcs i p p'
turn pcs i {p} p' e = record {
  same = length-set pcs i p';
  holders = weigh-set holds pcs i p' e;
  freers = weigh-set frees pcs i p' e;
  at_work = weigh-set busy pcs i p' e;
  crashers = weigh-set crashes pcs i p' e;
  some_held = weigh-le holds pcs (λ q. ground arith);
  some_hold = weigh-le holds (set pcs i p') (λ q. ground arith);
  holder = weigh-ge holds pcs i e;
  freer = weigh-ge frees pcs i e;
  worker = weigh-ge busy pcs i e;
  crasher = weigh-ge crashes pcs i e;
}

module _ (api : KrefApi) (room : 4 ≤ KrefApi.limit api) where
  WorkerStep-IsKept :
      (tid i : ℕ) (pcs : List Pc) (st : Stage) {o o' : MyObject} {p p' : Pc}
      → IsKept (record { obj = o; workers = pcs; stage = st })
      → Turn pcs i p p'
      → WorkerStep api tid o p o' p'
      → IsKept (record { obj = o'; workers = set pcs i p'; stage = st })
  unfolding take_reference put_reference my_object_release
  WorkerStep-IsKept tid i pcs st kept t (find lt e) = ground arith
  WorkerStep-IsKept tid i pcs st kept t (find_null lt e) = ground arith
  WorkerStep-IsKept tid i pcs st kept t leave = ground arith
  WorkerStep-IsKept tid i pcs st {o} kept t (get e) = ground (arith, KrefApi.get_pos api o.refcount)
  WorkerStep-IsKept tid i pcs st kept t (get_null e) = ground arith
  WorkerStep-IsKept tid i pcs st kept t (assign e) = ground arith
  WorkerStep-IsKept tid i pcs st kept t (assign_null e) = ground arith
  WorkerStep-IsKept tid i pcs st kept t load = ground arith
  WorkerStep-IsKept tid i pcs st kept t write = ground arith
  WorkerStep-IsKept tid i pcs st {o} kept t (drop_last h) =
      ground (arith, KrefApi.dec_pos api o.refcount)
  WorkerStep-IsKept tid i pcs st {o} kept t (drop h) =
      ground (arith, KrefApi.dec_pos api o.refcount)
  WorkerStep-IsKept tid i pcs st kept t free = ground arith

create-IsKept :
    (s : System)
    → s.stage ≡ loading
    → length s.workers < 3
    → IsKept s
    → IsKept (record s { workers = s.workers ++ top 0 ∷ [] })
create-IsKept s e lt kept =
    let one : List Pc = top 0 ∷ [] in
    let longer = length-append s.workers one in
    let a = weigh-append holds s.workers one in
    let b = weigh-append frees s.workers one in
    let c = weigh-append busy s.workers one in
    let d = weigh-append crashes s.workers one in
    let few = weigh-le busy s.workers (λ q. ground arith) in
    let here : is_gone s.stage ≡ false = rw e in ground arith

restage-IsKept :
    (s : System) (st : Stage)
    → is_gone s.stage ≡ false
    → is_gone st ≡ false
    → IsKept s
    → IsKept (record s { stage = st })
restage-IsKept s st e e' kept = ground arith

module _ (api : KrefApi) (room : 4 ≤ KrefApi.limit api) where
  back_out-IsKept :
      (s : System)
      → s.stage ≡ failed
      → AllFinished s.workers
      → IsKept s
      → IsKept (record s { obj = kref_put api s.obj; stage = gone })
  unfolding kref_put
  back_out-IsKept s e all kept =
      let a = weigh-AllFinished holds s.workers refl all in
      let b = weigh-AllFinished frees s.workers refl all in
      let c = weigh-AllFinished busy s.workers refl all in
      let here : is_gone s.stage ≡ false = rw e in
      ground (arith, KrefApi.dec_pos api s.obj.refcount)

  unload-IsKept :
      (s : System)
      → s.stage ≡ running
      → AllFinished s.workers
      → IsKept s
      → IsKept (record s { obj = kref_example_exit api s.obj; stage = gone })
  unfolding kref_example_exit
  unload-IsKept s e all kept =
      let a = weigh-AllFinished holds s.workers refl all in
      let b = weigh-AllFinished frees s.workers refl all in
      let c = weigh-AllFinished busy s.workers refl all in
      let here : is_gone s.stage ≡ false = rw e in
      ground (arith, KrefApi.dec_pos api s.obj.refcount)

  Step-IsKept : {s t : System} → IsKept s → Step api s t → IsKept t
  Step-IsKept {s} kept (work i {p' = p'} e mv) =
      WorkerStep-IsKept api room (suc i) i s.workers s.stage kept (turn s.workers i p' e) mv
  Step-IsKept {s} kept (create e lt) = create-IsKept s e lt kept
  Step-IsKept {s} kept (create_fails e lt) = restage-IsKept s failed (rw e) refl kept
  Step-IsKept {s} kept (loaded e all) = restage-IsKept s running (rw e) refl kept
  Step-IsKept {s} kept (back_out e all) = back_out-IsKept s e all kept
  Step-IsKept {s} kept (unload e all) = unload-IsKept s e all kept

  Reach-IsKept : {s t : System} → IsKept s → Reach api s t → IsKept t
  Reach-IsKept kept start = kept
  Reach-IsKept kept (later r step) = Step-IsKept (Reach-IsKept kept r) step

published-IsKept :
    (name : List ℕ) (n : ℕ) {o : MyObject}
    → create_object true name n ≡ some o
    → IsKept (published o)
unfolding create_object published
published-IsKept name n e = ground arith

module _ (api : KrefApi) (room : 4 ≤ KrefApi.limit api) (name : List ℕ) (n : ℕ) {o : MyObject}
    (made : create_object true name n ≡ some o) where
  -- With a counter that can count to four, in every interleaving of the workers, of a load that may
  -- fail at any thread, and of the unload: the object is allocated exactly until the module has put
  -- its own reference, and freed then; the references are the module's and one of each worker that
  -- holds one; no worker is at a null pointer; and while any worker is about to use the object, or
  -- to free it, it is allocated.
  pub kref-kept :
      {s : System}
      → Reach api (published o) s
      → (s.obj.live ≡ not (is_gone s.stage))
        × (s.obj.refcount ≡ bit (not (is_gone s.stage)) + weigh holds s.workers)
        × (weigh crashes s.workers ≡ 0)
        × (weigh touches s.workers ≤ 3 * bit s.obj.live)
  kref-kept {s} r =
      let kept = Reach-IsKept api room (published-IsKept name n made) r in
      let all = weigh-le touches s.workers (λ q. ground arith) in
      let holders = weigh-le_busy holds (λ q. ground arith) s.workers in
      let freers = weigh-le_busy frees (λ q. ground arith) s.workers in
      let touchers = weigh-le_busy touches (λ q. ground arith) s.workers in ground arith
