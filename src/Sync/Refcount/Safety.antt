-- ===== src/Sync/Refcount/Safety.antt =====
-- Who holds a reference, and when the resource is freed.
use linux_kernel_prog.Prelude.{
  ℕ, zero, suc, ◌+◌, ◌≤◌, ◌<◌, ◌≡◌, refl, Bool, true, false, some, List, [], ◌∷◌, replicate,
  length-replicate, length, get_elem?, set, arith, weigh, weigh-set, weigh-ge, weigh-le, length-set,
  ◌==◌, if◌then◌else◌,
}
use linux_kernel_prog.Sync.Refcount.{
  RefcountApi, Memory, free_resource, get_resource, drop_reference, unload, create_resource,
}
use linux_kernel_prog.Sync.Refcount.Threads.{
  Pc, idle, held, loaded, releasing, freeing, finished, Move, acquire, refused, stop, inactive,
  load, write, drop_last, drop, free, System, Step, run, leave, Reach, start, later,
}

-- A thread with a reference.
abbrev pub holds : Pc → ℕ
holds (held _) = 1
holds (loaded _ _) = 1
holds (releasing _) = 1
holds _ = 0

-- A thread that is about to free the resource.
abbrev pub frees : Pc → ℕ
frees (freeing _) = 1
frees _ = 0

abbrev pub bit : Bool → ℕ
bit true = 1
bit false = 0

pub record Inv (n : ℕ) (s : System) : Type 0 where
  pub threads : length s.pcs ≡ n
  pub counted : s.mem.refcount ≡ bit s.mem.shared + weigh holds s.pcs
  -- The resource is allocated as long as it is referenced or somebody is about to free it.
  pub owned : bit s.mem.live ≡ (if s.mem.refcount == 0 then 0 else 1) + weigh frees s.pcs

-- What a write of one program counter does to the weights.
record Turn (pcs : List Pc) (i : ℕ) (p p' : Pc) : Type 0 where
  same : length (set pcs i p') ≡ length pcs
  holders : weigh holds (set pcs i p') + holds p ≡ weigh holds pcs + holds p'
  freers : weigh frees (set pcs i p') + frees p ≡ weigh frees pcs + frees p'
  few : weigh holds pcs ≤ length pcs
  holder : holds p ≤ weigh holds pcs
  freer : frees p ≤ weigh frees pcs

turn : (pcs : List Pc) (i : ℕ) {p : Pc} (p' : Pc) → get_elem? pcs i ≡ some p → Turn pcs i p p'
turn pcs i {p} p' e = record {
  same = length-set pcs i p';
  holders = weigh-set holds pcs i p' e;
  freers = weigh-set frees pcs i p' e;
  few = weigh-le holds pcs (λ q. ground arith);
  holder = weigh-ge holds pcs i e;
  freer = weigh-ge frees pcs i e;
}

module _ (api : RefcountApi) {n : ℕ} (room : n + 1 < api.limit) where
  Move-Inv :
      (tid i : ℕ) (pcs : List Pc) {m m' : Memory} {p p' : Pc}
      → Inv n (record { mem = m; pcs = pcs })
      → Turn pcs i p p'
      → Move api tid m p m' p'
      → Inv n (record { mem = m'; pcs = set pcs i p' })
  unfolding get_resource drop_reference free_resource
  Move-Inv tid i pcs {m} inv t (acquire lt got) =
      ground (arith, api.inc_pos m.refcount, api.inc_zero)
  Move-Inv tid i pcs {m} inv t (refused lt got) =
      ground (arith, api.inc_pos m.refcount, api.inc_zero)
  Move-Inv tid i pcs inv t stop = ground arith
  Move-Inv tid i pcs inv t (inactive h) = ground arith
  Move-Inv tid i pcs inv t (load h) = ground arith
  Move-Inv tid i pcs inv t write = ground arith
  Move-Inv tid i pcs {m} inv t (drop_last h) = ground (arith, api.dec_pos m.refcount)
  Move-Inv tid i pcs {m} inv t (drop h) = ground (arith, api.dec_pos m.refcount)
  Move-Inv tid i pcs inv t free = ground arith

-- Every thread has left its function.
abbrev pub AllFinished : List Pc → Type 0
AllFinished pcs = (i : ℕ) → i < length pcs → get_elem? pcs i ≡ some finished

weigh-AllFinished :
    (w : Pc → ℕ) (pcs : List Pc) → w finished ≡ 0 → AllFinished pcs → weigh w pcs ≡ 0
weigh-AllFinished w [] z h = refl
weigh-AllFinished w (p ∷ pcs) z h =
    let rest = weigh-AllFinished w pcs z (λ i lt. h (suc i) (omega arith)) in
    ground (arith, h 0 (omega arith))

module _ (api : RefcountApi) {n : ℕ} (room : n + 1 < api.limit) where
  unload-Inv :
      (m : Memory) (pcs : List Pc)
      → Inv n (record { mem = m; pcs = pcs })
      → AllFinished pcs
      → Inv n (record { mem = unload api m; pcs = pcs })
  unfolding unload
  unload-Inv m pcs inv all =
      let none_hold = weigh-AllFinished holds pcs refl all in
      let none_free = weigh-AllFinished frees pcs refl all in ground (arith, api.dec_pos m.refcount)

  Step-Inv : {s t : System} → Inv n s → Step api s t → Inv n t
  Step-Inv {s} inv (run i {p' = p'} e mv) =
      Move-Inv api room (suc i) i s.pcs inv (turn s.pcs i p' e) mv
  Step-Inv {s} inv (leave all) = unload-Inv s.mem s.pcs inv all

  Reach-Inv : {s t : System} → Inv n s → Reach api s t → Inv n t
  Reach-Inv inv start = inv
  Reach-Inv inv (later r st) = Step-Inv (Reach-Inv inv r) st

-- The module just loaded: the new resource is published, and the threads are at their start.
unfoldable pub loaded_module : (threads : ℕ) → Memory → System
loaded_module threads m = record {
  mem = record m { shared = true };
  pcs = replicate threads (idle 0);
}

weigh-replicate : (w : Pc → ℕ) (n : ℕ) → w (idle 0) ≡ 0 → weigh w (replicate n (idle 0)) ≡ 0
weigh-replicate w zero z = refl
weigh-replicate w (suc n) z = omega (arith, weigh-replicate w n z)

loaded_module-Inv :
    (n id : ℕ) (desc : List ℕ) {m : Memory}
    → create_resource true id desc ≡ some m
    → Inv n (loaded_module n m)
unfolding create_resource loaded_module
loaded_module-Inv n id desc {m} e =
    let none_hold = weigh-replicate holds n refl in
    let none_free = weigh-replicate frees n refl in ground (arith, length-replicate n (idle 0))

module _ (api : RefcountApi) (n id : ℕ) (desc : List ℕ) {m : Memory} (room : n + 1 < api.limit)
    (made : create_resource true id desc ≡ some m) where
  -- With fewer threads than the counter can count, in every interleaving: a thread that holds a
  -- reference, or is about to free the resource, finds it allocated, so it is never used after it
  -- was freed and never freed twice.
  pub no_use_after_free :
      {s : System} (i : ℕ) {p : Pc}
      → Reach api (loaded_module n m) s
      → get_elem? s.pcs i ≡ some p
      → holds p + frees p ≡ 1
      → s.mem.live ≡ true
  no_use_after_free {s} i {p} r e busy =
      let inv = Reach-Inv api room (loaded_module-Inv n id desc made) r in
      let t = turn s.pcs i p e in ground arith

  -- With fewer threads than the counter can count, in every interleaving: as long as the module's
  -- pointer is set, the resource is allocated and a thread that asks for it gets it; the number
  -- of references is one more than the number of threads that hold one.
  pub shared-live :
      {s : System}
      → Reach api (loaded_module n m) s
      → s.mem.shared ≡ true
      → (s.mem.live ≡ true)
        × ((get_resource api s.mem).0 ≡ true)
        × (s.mem.refcount ≡ weigh holds s.pcs + 1)
  unfolding get_resource
  shared-live {s} r on =
      let inv = Reach-Inv api room (loaded_module-Inv n id desc made) r in
      let few = weigh-le holds s.pcs (λ q. ground arith) in
      ground (arith, api.inc_pos s.mem.refcount)

  -- With fewer threads than the counter can count, in every interleaving: once the module is
  -- unloaded, when all threads have ended, the resource has been freed.
  pub unloaded-freed :
      {s : System}
      → Reach api (loaded_module n m) s
      → AllFinished s.pcs
      → s.mem.shared ≡ false
      → s.mem.live ≡ false
  unloaded-freed {s} r all off =
      let inv = Reach-Inv api room (loaded_module-Inv n id desc made) r in
      let none_hold = weigh-AllFinished holds s.pcs refl all in
      let none_free = weigh-AllFinished frees s.pcs refl all in ground arith
