-- ===== src/Buggy/MissingLock/Threads.antt =====
-- The threads of missing_lock.c as step relations: `shared_counter++` is a load and a store.
use linux_kernel_prog.Prelude.{
  ℕ, suc, ◌+◌, ◌%◌, ◌^◌, ◌<◌, ◌≤◌, ◌≡◌, Bool, true, false, some, List, get_elem?, set, replicate,
}

-- The loop bound.
abbrev pub rounds : ℕ
rounds = 1000

-- Where a thread stands, with the number of rounds behind it. The positions `entered` to `leaving`
-- are those with the mutex.
pub data Pc : Type 0 where
  top : ℕ → Pc
  entered : ℕ → Pc
  loaded : ℕ → (value : ℕ) → Pc
  leaving : ℕ → Pc
  finished : Pc

pub record System : Type 0 where
  pub shared_counter : ℕ
  pub protect_counter : Bool  -- whether the mutex is held
  pub pcs : List Pc

-- A step of `race_thread_fn`.
pub data RaceMove (counter : ℕ) (held : Bool) : Pc → ℕ → Bool → Pc → Type 0 where
  load : {k : ℕ} → k < rounds → RaceMove counter held (top k) counter held (loaded k counter)
  store : {k x : ℕ} → RaceMove counter held (loaded k x) ((x + 1) % 2 ^ 32) held (top (suc k))
  finish : {k : ℕ} → rounds ≤ k → RaceMove counter held (top k) counter held finished

-- A step of `race_thread_locked_fn`.
pub data LockedMove (counter : ℕ) (held : Bool) : Pc → ℕ → Bool → Pc → Type 0 where
  lock :
      {k : ℕ} → k < rounds → held ≡ false → LockedMove counter held (top k) counter true (entered k)
  load : {k : ℕ} → LockedMove counter held (entered k) counter held (loaded k counter)
  store : {k x : ℕ} → LockedMove counter held (loaded k x) ((x + 1) % 2 ^ 32) held (leaving k)
  unlock : {k : ℕ} → LockedMove counter held (leaving k) counter false (top (suc k))
  finish : {k : ℕ} → rounds ≤ k → LockedMove counter held (top k) counter held finished

-- Any thread may take the next step.
pub data Step (Move : ℕ → Bool → Pc → ℕ → Bool → Pc → Type 0) (s : System) : System → Type 0 where
  run :
      (i : ℕ) {p p' : Pc} {counter' : ℕ} {held' : Bool}
      → get_elem? s.pcs i ≡ some p
      → Move s.shared_counter s.protect_counter p counter' held' p'
      → Step Move s
          (record { shared_counter = counter'; protect_counter = held'; pcs = set s.pcs i p' })

pub data Reach (Move : ℕ → Bool → Pc → ℕ → Bool → Pc → Type 0) (s : System) : System → Type 0 where
  start : Reach Move s s
  later : {t u : System} → Reach Move s t → Step Move t u → Reach Move s u

-- The counter has been reset, and threads were created.
abbrev pub launched : (threads : ℕ) → System
launched n = record { shared_counter = 0; protect_counter = false; pcs = replicate n (top 0) }

-- The increments behind a thread.
abbrev pub done : Pc → ℕ
done (top k) = k
done (entered k) = k
done (loaded k x) = k
done (leaving k) = suc k
done finished = rounds
