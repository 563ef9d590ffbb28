-- ===== src/Buggy/Locking/Deadlock/Stuck.antt =====
-- When the two threads of deadlock.c wait for each other.
use linux_kernel_prog.Prelude.{ℕ, ◌≡◌, ◌≢◌, ◌⊎◌, inl, inr, refl, Option, none, some, arith, ap, ◌∙◌}
use linux_kernel_prog.Buggy.Locking.Deadlock.{
  Owner, one, two, Position, starting, has_first, has_both, has_first_again, finished, System,
  running, Step, one_locks_a, one_locks_b, one_unlocks_b, one_unlocks_a, two_locks_b, two_locks_a,
  two_unlocks_a, two_unlocks_b, Reach, start, later,
}

-- What each thread holds at its position.
abbrev one_a : Position → ℕ
one_a starting = 0
one_a finished = 0
one_a _ = 1

abbrev inner : Position → ℕ
inner has_both = 1
inner _ = 0

abbrev is_owner : Owner → Option Owner → ℕ
is_owner one (some one) = 1
is_owner two (some two) = 1
is_owner _ _ = 0

-- A lock is owned by the thread that is where it holds it.
pub record IsConsistent (s : System) : Type 0 where
  pub a_by_one : is_owner one s.lock_a ≡ one_a s.thread1
  pub a_by_two : is_owner two s.lock_a ≡ inner s.thread2
  pub b_by_one : is_owner one s.lock_b ≡ inner s.thread1
  pub b_by_two : is_owner two s.lock_b ≡ one_a s.thread2

step-IsConsistent : {s t : System} → Step s t → IsConsistent s → IsConsistent t
step-IsConsistent (one_locks_a s p l) c = ground arith
step-IsConsistent (one_locks_b s p l) c = ground arith
step-IsConsistent (one_unlocks_b s p) c = ground arith
step-IsConsistent (one_unlocks_a s p) c = ground arith
step-IsConsistent (two_locks_b s p l) c = ground arith
step-IsConsistent (two_locks_a s p l) c = ground arith
step-IsConsistent (two_unlocks_a s p) c = ground arith
step-IsConsistent (two_unlocks_b s p) c = ground arith

running-IsConsistent : IsConsistent running
running-IsConsistent = record { a_by_one = refl; a_by_two = refl; b_by_one = refl; b_by_two = refl }

pub Reach-IsConsistent : {s : System} → Reach running s → IsConsistent s
Reach-IsConsistent start = running-IsConsistent
Reach-IsConsistent (later r step) = step-IsConsistent step (Reach-IsConsistent r)

no_owner : (l : Option Owner) → is_owner one l ≡ 0 → is_owner two l ≡ 0 → l ≡ none
no_owner none h k = refl
no_owner (some one) h k = absurd (omega (arith, h))
no_owner (some two) h k = absurd (omega (arith, k))

abbrev pub Going : System → Type 0
Going s = (t : System) × Step s t

abbrev pub Ended : System → Type 0
Ended s = (s.thread1 ≡ finished) × (s.thread2 ≡ finished)

-- Each thread has its first lock.
abbrev pub Crossed : System → Type 0
Crossed s = (s.thread1 ≡ has_first) × (s.thread2 ≡ has_first)

module _ (s : System) (c : IsConsistent s) where
  a_free :
      {p q : Position} → s.thread1 ≡ p → s.thread2 ≡ q → one_a p ≡ 0 → inner q ≡ 0 → s.lock_a ≡ none
  a_free e f h k = no_owner s.lock_a (c.a_by_one ∙ ap one_a e ∙ h) (c.a_by_two ∙ ap inner f ∙ k)

  b_free :
      {p q : Position} → s.thread1 ≡ p → s.thread2 ≡ q → inner p ≡ 0 → one_a q ≡ 0 → s.lock_b ≡ none
  b_free e f h k = no_owner s.lock_b (c.b_by_one ∙ ap inner e ∙ h) (c.b_by_two ∙ ap one_a f ∙ k)

  next : (p q : Position) → s.thread1 ≡ p → s.thread2 ≡ q → Going s ⊎ (Ended s ⊎ Crossed s)
  next has_both q e f = inl (_, one_unlocks_b s e)
  next has_first_again q e f = inl (_, one_unlocks_a s e)
  next starting has_both e f = inl (_, two_unlocks_a s f)
  next has_first has_both e f = inl (_, two_unlocks_a s f)
  next finished has_both e f = inl (_, two_unlocks_a s f)
  next starting has_first_again e f = inl (_, two_unlocks_b s f)
  next has_first has_first_again e f = inl (_, two_unlocks_b s f)
  next finished has_first_again e f = inl (_, two_unlocks_b s f)
  next starting starting e f = inl (_, one_locks_a s e (a_free e f refl refl))
  next starting has_first e f = inl (_, one_locks_a s e (a_free e f refl refl))
  next starting finished e f = inl (_, one_locks_a s e (a_free e f refl refl))
  next has_first starting e f = inl (_, one_locks_b s e (b_free e f refl refl))
  next has_first finished e f = inl (_, one_locks_b s e (b_free e f refl refl))
  next has_first has_first e f = inr (inr (e, f))
  next finished starting e f = inl (_, two_locks_b s f (b_free e f refl refl))
  next finished has_first e f = inl (_, two_locks_a s f (a_free e f refl refl))
  next finished finished e f = inr (inl (e, f))

-- In every state that the two threads can come to, one of them can go on, or both are finished, or
-- each has its first lock: they wait for each other in no other way.
pub threads-progress : {s : System} → Reach running s → Going s ⊎ (Ended s ⊎ Crossed s)
threads-progress {s} r = next s (Reach-IsConsistent r) s.thread1 s.thread2 refl refl

-- The second lock of each thread is then with the other one.
b_taken : {s : System} → IsConsistent s → s.thread2 ≡ has_first → s.lock_b ≢ none
b_taken {s} c f h =
    let own : is_owner two s.lock_b ≡ 1 = c.b_by_two ∙ ap one_a f in
    let free : is_owner two s.lock_b ≡ 0 = ap (is_owner two) h in absurd (omega (arith, own, free))

a_taken : {s : System} → IsConsistent s → s.thread1 ≡ has_first → s.lock_a ≢ none
a_taken {s} c e h =
    let own : is_owner one s.lock_a ≡ 1 = c.a_by_one ∙ ap one_a e in
    let free : is_owner one s.lock_a ≡ 0 = ap (is_owner one) h in absurd (omega (arith, own, free))

blocked :
    {s t : System} → IsConsistent s → s.thread1 ≡ has_first → s.thread2 ≡ has_first → ¬ Step s t
blocked c e f (one_locks_a s p l) = a_taken c e l
blocked c e f (one_locks_b s p l) = b_taken c f l
blocked c e f (one_unlocks_b s p) = cc
blocked c e f (one_unlocks_a s p) = cc
blocked c e f (two_locks_b s p l) = b_taken c f l
blocked c e f (two_locks_a s p l) = a_taken c e l
blocked c e f (two_unlocks_a s p) = cc
blocked c e f (two_unlocks_b s p) = cc

-- A thread that has at most its first lock.
abbrev pub Early : Position → Type 0
Early p = (p ≡ starting) ⊎ (p ≡ has_first)

-- With its first lock, the one thread waits until the other has its own.
to_second :
    {o : System} (s : System)
    → Reach o s
    → IsConsistent s
    → s.thread1 ≡ has_first
    → Early s.thread2
    → (t : System) × Reach o t × IsConsistent t × Crossed t
to_second s r c e (inl f) =
    let step = two_locks_b s f (b_free s c e f refl refl) in
    (_, later r step, step-IsConsistent step c, (e, refl))
to_second s r c e (inr f) = (s, r, c, (e, f))

first_free :
    (s : System) → IsConsistent s → s.thread1 ≡ starting → Early s.thread2 → s.lock_a ≡ none
first_free s c e (inl f) = a_free s c e f refl refl
first_free s c e (inr f) = a_free s c e f refl refl

to_crossed :
    (s : System)
    → IsConsistent s
    → Early s.thread1
    → Early s.thread2
    → (t : System) × Reach s t × IsConsistent t × Crossed t
to_crossed s c (inl e) f =
    let step = one_locks_a s e (first_free s c e f) in
    to_second _ (later start step) (step-IsConsistent step c) refl f
to_crossed s c (inr e) f = to_second s start c e f

-- From every state that the threads of deadlock.c can come to in which each has at most its first
-- lock, they can come to a state in which each has exactly that, and from there neither can take any
-- step.
pub threads-deadlock :
    (s : System)
    → Reach running s
    → Early s.thread1
    → Early s.thread2
    → (t : System) × Reach s t × Crossed t × ((u : System) → ¬ Step t u)
threads-deadlock s r early1 early2 =
    let (t, path, c, cross) = to_crossed s (Reach-IsConsistent r) early1 early2 in
    (t, path, cross, λ u. blocked c cross.0 cross.1)

-- A state in which the threads wait for each other.
abbrev pub crossed : System
crossed = record { lock_a = some one; lock_b = some two; thread1 = has_first; thread2 = has_first }

pub crossed-Reach : Reach running crossed
crossed-Reach = later (later start (one_locks_a running refl refl)) (
    two_locks_b
      (record { lock_a = some one; lock_b = none; thread1 = has_first; thread2 = starting }) refl
      refl)
