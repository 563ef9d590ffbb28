-- ===== src/Buggy/MissingLock/Race.antt =====
-- Without the mutex, increments of missing_lock.c are lost.
use linux_kernel_prog.Prelude.{
  ℕ, zero, suc, ◌+◌, ◌-◌, ◌*◌, ◌%◌, ◌^◌, ◌<◌, ◌≤◌, ◌≡◌, refl, Bool, false, List, [], ◌∷◌, arith,
  set, replicate, length, length-set, length-replicate, weigh, leb, if◌then◌else◌,
}
use mathlib.Core.Path.{subst}
use linux_kernel_prog.Buggy.MissingLock.Threads.{
  rounds, Pc, top, entered, loaded, leaving, finished, System, RaceMove, Step, Reach, launched,
  done,
}
use linux_kernel_prog.Buggy.MissingLock.Locked.{
  over, weigh_mono, Turn, turn, weigh-launched, AllFinished, weigh-AllFinished,
}

-- A thread that has read a value above a bound.
abbrev pub ahead : (bound : ℕ) → Pc → ℕ
ahead d (top k) = 0
ahead d (entered k) = 0
ahead d (loaded k x) = if leb x d then 0 else 1
ahead d (leaving k) = 0
ahead d finished = 0

pub record Inv (n : ℕ) (s : System) : Type 0 where
  pub behind : weigh (ahead (weigh done s.pcs)) s.pcs ≡ 0
  pub counted : s.shared_counter ≤ weigh done s.pcs
  pub bounded : weigh over s.pcs ≡ 0
  pub size : length s.pcs ≡ n

ahead-le : (d d' : ℕ) → d ≤ d' → (p : Pc) → ahead d' p ≤ ahead d p
ahead-le d d' h (top k) = omega arith
ahead-le d d' h (entered k) = omega arith
ahead-le d d' h (loaded k x) = ground arith
ahead-le d d' h (leaving k) = omega arith
ahead-le d d' h finished = omega arith

-- The sum of increments only grows, and no thread gets ahead of it.
behind-set :
    (pcs : List Pc) (i : ℕ) {p : Pc} (p' : Pc)
    → Turn pcs i p p'
    → weigh (ahead (weigh done pcs)) pcs ≡ 0
    → weigh done pcs ≤ weigh done (set pcs i p')
    → ahead (weigh done pcs) p' ≡ 0
    → weigh (ahead (weigh done (set pcs i p'))) (set pcs i p') ≡ 0
behind-set pcs i p' t h grows new =
    let d = weigh done pcs in
    let d' = weigh done (set pcs i p') in
    omega (
      arith,
      h,
      new,
      t.at (ahead d),
      weigh_mono (ahead d') (ahead d) (set pcs i p') (ahead-le d d' grows),
    )

Move-Inv :
    {n counter counter' : ℕ} {held held' : Bool} {p p' : Pc} (i : ℕ) (pcs : List Pc)
    → Inv n (record { shared_counter = counter; protect_counter = held; pcs = pcs })
    → Turn pcs i p p'
    → RaceMove counter held p counter' held' p'
    → Inv n (record { shared_counter = counter'; protect_counter = held'; pcs = set pcs i p' })
Move-Inv {n} {counter} i pcs inv t (RaceMove.load {k} lt) = record {
  behind =
      behind-set pcs i (loaded k counter) t inv.behind (omega (arith, t.at done))
        (ground (arith, inv.counted));
  counted = omega (arith, inv.counted, t.at done);
  bounded = ground (arith, inv.bounded, t.at over);
  size = omega (arith, inv.size, length-set pcs i (loaded k counter));
}
Move-Inv {n} {counter} i pcs inv t (RaceMove.store {k} {x}) =
    let low : x ≤ weigh done pcs = ground (arith, inv.behind, t.least (ahead (weigh done pcs))) in
    record {
      behind = behind-set pcs i (top (suc k)) t inv.behind (omega (arith, t.at done)) refl;
      counted = omega (arith, low, t.at done);
      bounded = ground (arith, inv.bounded, t.at over, t.least over);
      size = omega (arith, inv.size, length-set pcs i (top (suc k)));
    }
Move-Inv {n} {counter} i pcs inv t (RaceMove.finish {k} le) =
    let last : k ≤ rounds = ground (arith, inv.bounded, t.least over) in
    record {
      behind = behind-set pcs i finished t inv.behind (omega (arith, last, le, t.at done)) refl;
      counted = omega (arith, inv.counted, last, le, t.at done);
      bounded = ground (arith, inv.bounded, t.at over);
      size = omega (arith, inv.size, length-set pcs i finished);
    }

launched-Inv : (n : ℕ) → Inv n (launched n)
launched-Inv n = record {
  behind = weigh-launched (ahead (weigh done (replicate n (top 0)))) n refl;
  counted = omega arith;
  bounded = weigh-launched over n refl;
  size = length-replicate n (top 0);
}

Reach-Inv : {n : ℕ} {s : System} → Reach RaceMove (launched n) s → Inv n s
Reach-Inv {n} Reach.start = launched-Inv n
Reach-Inv (Reach.later {t = t} r (Step.run i {p' = p'} e mv)) =
    Move-Inv i t.pcs (Reach-Inv r) (turn t.pcs i p' e) mv

-- When all threads without the mutex have finished, the counter is at most a thousand for each: it
-- may have lost increments but has none too many.
pub race-bound :
    (n : ℕ) {s : System}
    → Reach RaceMove (launched n) s
    → AllFinished s.pcs
    → s.shared_counter ≤ n * 1000
race-bound n {s} r all =
    let inv = Reach-Inv r in omega (arith, inv.counted, inv.size, weigh-AllFinished done all)

-- Two threads, of which none has the mutex.
abbrev pub duo : (counter : ℕ) (p q : Pc) → System
duo c p q = record { shared_counter = c; protect_counter = false; pcs = p ∷ q ∷ [] }

abbrev pub Race : System → Type 0
Race s = Reach RaceMove (launched 2) s

-- Both threads read before either writes: two rounds count as one.
lockstep : (k : ℕ) → k ≤ rounds → Race (duo k (top k) (top k))
lockstep zero h = Reach.start
lockstep (suc k) h =
    let lt : k < rounds = omega arith in
    let value : (k + 1) % 2 ^ 32 ≡ suc k = omega arith in
    let r1 = Reach.later (lockstep k (omega arith)) (Step.run 0 refl (RaceMove.load lt)) in
    let r2 = Reach.later r1 (Step.run 1 refl (RaceMove.load lt)) in
    let r3 = Reach.later r2 (Step.run 0 refl RaceMove.store) in
    let r4 = Reach.later r3 (Step.run 1 refl RaceMove.store) in
    subst (λ c. Race (duo c (top (suc k)) (top (suc k)))) value r4

-- One thread alone, for `m` rounds.
solo_first :
    (m k c : ℕ) {q : Pc}
    → k + m ≤ rounds
    → c + m < 2 ^ 32
    → Race (duo c (top k) q)
    → Race (duo (c + m) (top (k + m)) q)
solo_first zero k c {q} h room r =
    subst (λ z. Race (duo z (top (k + 0)) q)) (omega arith)
      (subst (λ z. Race (duo c (top z) q)) (omega arith) r)
solo_first (suc m) k c {q} h room r =
    let lt : k < rounds = omega arith in
    let value : (c + 1) % 2 ^ 32 ≡ suc c = omega arith in
    let r1 = Reach.later r (Step.run 0 refl (RaceMove.load lt)) in
    let r2 = Reach.later r1 (Step.run 0 refl RaceMove.store) in
    let next = subst (λ z. Race (duo z (top (suc k)) q)) value r2 in
    let rest = solo_first m (suc k) (suc c) (omega arith) (omega arith) next in
    subst (λ z. Race (duo z (top (k + suc m)) q)) (omega arith)
      (subst (λ z. Race (duo (suc c + m) (top z) q)) (omega arith) rest)

solo_second :
    (m k c : ℕ) {p : Pc}
    → k + m ≤ rounds
    → c + m < 2 ^ 32
    → Race (duo c p (top k))
    → Race (duo (c + m) p (top (k + m)))
solo_second zero k c {p} h room r =
    subst (λ z. Race (duo z p (top (k + 0)))) (omega arith)
      (subst (λ z. Race (duo c p (top z))) (omega arith) r)
solo_second (suc m) k c {p} h room r =
    let lt : k < rounds = omega arith in
    let value : (c + 1) % 2 ^ 32 ≡ suc c = omega arith in
    let r1 = Reach.later r (Step.run 1 refl (RaceMove.load lt)) in
    let r2 = Reach.later r1 (Step.run 1 refl RaceMove.store) in
    let next = subst (λ z. Race (duo z p (top (suc k)))) value r2 in
    let rest = solo_second m (suc k) (suc c) (omega arith) (omega arith) next in
    subst (λ z. Race (duo z p (top (k + suc m)))) (omega arith)
      (subst (λ z. Race (duo (suc c + m) p (top z))) (omega arith) rest)

-- Two threads without the mutex can finish with any number of increments lost up to a thousand.
pub race-lost :
    (lost : ℕ)
    → lost ≤ 1000
    → Reach RaceMove (launched 2) (record {
      shared_counter = 2000 - lost;
      protect_counter = false;
      pcs = finished ∷ finished ∷ [];
    })
race-lost lost h =
    let m = 1000 - lost in
    let all : lost + m ≡ 1000 = omega arith in
    let both = lockstep lost h in
    let first = solo_first m lost lost (omega arith) (omega arith) both in
    let second = solo_second m lost (lost + m) (omega arith) (omega arith) first in
    let r1 = Reach.later second (Step.run 0 refl (RaceMove.finish (omega arith))) in
    let r2 = Reach.later r1 (Step.run 1 refl (RaceMove.finish (omega arith))) in
    subst (λ z. Race (duo z finished finished)) (omega arith) r2
