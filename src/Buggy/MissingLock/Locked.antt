-- ===== src/Buggy/MissingLock/Locked.antt =====
-- With the mutex, no increment of missing_lock.c is lost.
use linux_kernel_prog.Prelude.{
  ℕ, zero, suc, ◌+◌, ◌*◌, ◌%◌, ◌^◌, ◌≤◌, ◌≡◌, refl, Bool, true, false, some, List, [], ◌∷◌, arith,
  get_elem?, set, replicate, length, length-set, length-replicate, weigh, weigh-set, weigh-ge, ◌==◌,
  leb, ltb, if◌then◌else◌,
}
use native.Mathlib.Nat.{suc-mul}
use linux_kernel_prog.Buggy.MissingLock.Threads.{
  rounds, Pc, top, entered, loaded, leaving, finished, System, LockedMove, Step, Reach, launched,
  done,
}

-- A thread that has read the counter and not yet written it.
abbrev pub loading : Pc → ℕ
loading (top k) = 0
loading (entered k) = 0
loading (loaded k x) = 1
loading (leaving k) = 0
loading finished = 0

-- A thread with the mutex that is not between its load and its store.
abbrev pub waiting : Pc → ℕ
waiting (top k) = 0
waiting (entered k) = 1
waiting (loaded k x) = 0
waiting (leaving k) = 1
waiting finished = 0

-- A thread that has read another value than the counter has now.
abbrev pub stale : (counter : ℕ) → Pc → ℕ
stale c (top k) = 0
stale c (entered k) = 0
stale c (loaded k x) = if x == c then 0 else 1
stale c (leaving k) = 0
stale c finished = 0

-- A thread beyond its bound.
abbrev pub over : Pc → ℕ
over (top k) = if leb k rounds then 0 else 1
over (entered k) = if ltb k rounds then 0 else 1
over (loaded k x) = if ltb k rounds then 0 else 1
over (leaving k) = if ltb k rounds then 0 else 1
over finished = 0

abbrev pub bit : Bool → ℕ
bit true = 1
bit false = 0

bit-le : (b : Bool) → bit b ≤ 1
bit-le true = omega arith
bit-le false = omega arith

pub record Inv (n : ℕ) (s : System) : Type 0 where
  pub mutex : weigh loading s.pcs + weigh waiting s.pcs ≡ bit s.protect_counter
  pub fresh : weigh (stale s.shared_counter) s.pcs ≡ 0
  pub counted : s.shared_counter ≡ weigh done s.pcs % 2 ^ 32
  pub bounded : weigh over s.pcs ≡ 0
  pub size : length s.pcs ≡ n

pub weigh_mono : (v w : Pc → ℕ) (pcs : List Pc) → ((p : Pc) → v p ≤ w p) → weigh v pcs ≤ weigh w pcs
weigh_mono v w [] h = omega arith
weigh_mono v w (p ∷ pcs) h = omega (arith, h p, weigh_mono v w pcs h)

stale-loading : (c : ℕ) (p : Pc) → stale c p ≤ loading p
stale-loading c (top k) = omega arith
stale-loading c (entered k) = omega arith
stale-loading c (loaded k x) = ground arith
stale-loading c (leaving k) = omega arith
stale-loading c finished = omega arith

-- What the move of one thread does to every weight.
pub record Turn (pcs : List Pc) (i : ℕ) (p p' : Pc) : Type 0 where
  pub at : (w : Pc → ℕ) → weigh w (set pcs i p') + w p ≡ weigh w pcs + w p'
  pub least : (w : Pc → ℕ) → w p ≤ weigh w pcs

pub turn : (pcs : List Pc) (i : ℕ) {p : Pc} (p' : Pc) → get_elem? pcs i ≡ some p → Turn pcs i p p'
turn pcs i p' e = record { at = λ w. weigh-set w pcs i p' e; least = λ w. weigh-ge w pcs i e }

Move-Inv :
    {n counter counter' : ℕ} {held held' : Bool} {p p' : Pc} (i : ℕ) (pcs : List Pc)
    → Inv n (record { shared_counter = counter; protect_counter = held; pcs = pcs })
    → Turn pcs i p p'
    → LockedMove counter held p counter' held' p'
    → Inv n (record { shared_counter = counter'; protect_counter = held'; pcs = set pcs i p' })
Move-Inv {n} {counter} i pcs inv t (LockedMove.lock {k} lt free) = record {
  mutex = ground (arith, inv.mutex, t.at loading, t.at waiting);
  fresh = ground (arith, inv.fresh, t.at (stale counter));
  counted = ground (arith, inv.counted, t.at done);
  bounded = ground (arith, inv.bounded, t.at over);
  size = omega (arith, inv.size, length-set pcs i (entered k));
}
Move-Inv {n} {counter} i pcs inv t (LockedMove.load {k}) = record {
  mutex = ground (arith, inv.mutex, t.at loading, t.at waiting);
  fresh = ground (arith, inv.fresh, t.at (stale counter));
  counted = ground (arith, inv.counted, t.at done);
  bounded = ground (arith, inv.bounded, t.at over);
  size = omega (arith, inv.size, length-set pcs i (loaded k counter));
}
Move-Inv {n} {counter} {held = held} i pcs inv t (LockedMove.store {k} {x}) =
    let same : x ≡ counter = ground (arith, inv.fresh, t.least (stale counter)) in
    let sum : weigh loading (set pcs i (leaving k)) + weigh waiting (set pcs i (leaving k))
        ≡ bit held =
      omega (arith, inv.mutex, t.at loading, t.at waiting) in
    record {
      mutex = sum;
      fresh = omega (
        arith,
        sum,
        bit-le held,
        t.at waiting,
        weigh_mono (stale ((x + 1) % 2 ^ 32)) loading (set pcs i (leaving k))
            (stale-loading ((x + 1) % 2 ^ 32)),
      );
      counted = ground (arith, inv.counted, t.at done);
      bounded = ground (arith, inv.bounded, t.at over);
      size = omega (arith, inv.size, length-set pcs i (leaving k));
    }
Move-Inv {n} {counter} i pcs inv t (LockedMove.unlock {k}) = record {
  mutex = ground (arith, inv.mutex, t.at loading, t.at waiting);
  fresh = ground (arith, inv.fresh, t.at (stale counter));
  counted = ground (arith, inv.counted, t.at done);
  bounded = ground (arith, inv.bounded, t.at over);
  size = omega (arith, inv.size, length-set pcs i (top (suc k)));
}
Move-Inv {n} {counter} i pcs inv t (LockedMove.finish {k} le) = record {
  mutex = ground (arith, inv.mutex, t.at loading, t.at waiting);
  fresh = ground (arith, inv.fresh, t.at (stale counter));
  counted = ground (arith, inv.counted, inv.bounded, t.at done, t.least over);
  bounded = ground (arith, inv.bounded, t.at over);
  size = omega (arith, inv.size, length-set pcs i finished);
}

pub weigh-launched : (w : Pc → ℕ) (n : ℕ) → w (top 0) ≡ 0 → weigh w (replicate n (top 0)) ≡ 0
weigh-launched w zero h = refl
weigh-launched w (suc n) h = omega (arith, h, weigh-launched w n h)

launched-Inv : (n : ℕ) → Inv n (launched n)
launched-Inv n = record {
  mutex = omega (arith, weigh-launched loading n refl, weigh-launched waiting n refl);
  fresh = weigh-launched (stale 0) n refl;
  counted = omega (arith, weigh-launched done n refl);
  bounded = weigh-launched over n refl;
  size = length-replicate n (top 0);
}

Reach-Inv : {n : ℕ} {s : System} → Reach LockedMove (launched n) s → Inv n s
Reach-Inv {n} Reach.start = launched-Inv n
Reach-Inv (Reach.later {t = t} r (Step.run i {p' = p'} e mv)) =
    Move-Inv i t.pcs (Reach-Inv r) (turn t.pcs i p' e) mv

-- Every thread has left its function.
pub data AllFinished : List Pc → Type 0 where
  none : AllFinished []
  more : {pcs : List Pc} → AllFinished pcs → AllFinished (finished ∷ pcs)

pub weigh-AllFinished :
    (w : Pc → ℕ) {pcs : List Pc} → AllFinished pcs → weigh w pcs ≡ length pcs * w finished
weigh-AllFinished w AllFinished.none = omega arith
weigh-AllFinished w (AllFinished.more {pcs} all) =
    omega (arith, weigh-AllFinished w all, suc-mul (length pcs) (w finished))

-- In every interleaving of threads that take the mutex, at most one of them is between its lock and
-- its unlock, and a thread about to write the counter has read the value that it still has.
pub locked-exclusive :
    (n : ℕ) {s : System}
    → Reach LockedMove (launched n) s
    → (weigh loading s.pcs + weigh waiting s.pcs ≤ 1)
      × ((i k x : ℕ) → get_elem? s.pcs i ≡ some (loaded k x) → x ≡ s.shared_counter)
locked-exclusive n {s} r =
    let inv = Reach-Inv r in
    (
      omega (arith, inv.mutex, bit-le s.protect_counter),
      λ i k x e. ground (arith, inv.fresh, weigh-ge (stale s.shared_counter) s.pcs i e),
    )

-- When all of any number of threads that take the mutex have finished, the counter has all their
-- increments: a thousand for each thread, modulo 2^32.
pub locked-total :
    (n : ℕ) {s : System}
    → Reach LockedMove (launched n) s
    → AllFinished s.pcs
    → s.shared_counter ≡ n * 1000 % 2 ^ 32
locked-total n {s} r all =
    let inv = Reach-Inv r in omega (arith, inv.counted, inv.size, weigh-AllFinished done all)
