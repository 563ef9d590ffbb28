-- ===== src/Sync/Kthreads/Cleanup.antt =====
-- What the loads of sync leave behind when a thread cannot be created.
pub mod Queue
use linux_kernel_prog.Prelude.{
  ℕ, zero, suc, ◌+◌, ◌≤◌, ◌<◌, ◌≡◌, ◌≢◌, refl, ap, length-append, ◌⊎◌, inl, inr, Bool, true, false,
  Option, none, some, List, [], ◌∷◌, ◌++◌, arith, count, Option-cases, length, get_elem?,
  if◌then◌else◌, leb,
}
use mathlib.Core.Path.{subst}
use native.Mathlib.Decide.{dec_lt}
use linux_kernel_prog.Kernel.{Result, ok, err, Errno}
use linux_kernel_prog.Sync.Refcount.{RefcountApi, Memory}
use linux_kernel_prog.Sync.Kthreads.{
  Load, stop_down, run_threads, range, all_running, clean_up, conclude, after_threads,
  conclude_consumers, conclude_producers, lockfree_list_init, refcount_example_init,
  lockless_queue_init, kref_example_init,
}

-- The first thread that cannot be created.
pub record FirstFailure (create : ℕ → Option Errno) (first n i : ℕ) : Type 0 where
  pub from : first ≤ i
  pub below : i < first + n
  pub fails : create i ≢ none
  pub before : (j : ℕ) → first ≤ j → j < i → create j ≡ none

abbrev pub AllCreated : (ℕ → Option Errno) → ℕ → ℕ → Type 0
AllCreated create first n = (j : ℕ) → first ≤ j → j < first + n → create j ≡ none

-- A fact about all threads behind the first is one about all if it holds of the first.
earlier :
    (create : ℕ → Option Errno) (first j : ℕ)
    → create first ≡ none
    → first ≤ j
    → (suc first ≤ j → create j ≡ none)
    → create j ≡ none
earlier create first j here a later = elim (dec_lt first j) [
  | yes above ↦ later above
  | no other ↦ let same : first ≡ j = omega arith in subst (λ k. create k ≡ none) same here
]

-- The loop ends with every thread created, or with the index of the first that was not.
pub run_threads-cases :
    (create : ℕ → Option Errno) (n first : ℕ) (threads : List (Result ℕ))
    → (((run_threads create n first threads).0 ≡ none) × AllCreated create first n)
      ⊎ ((i : ℕ) × ((run_threads create n first threads).0 ≡ some i)
          × FirstFailure create first n i)
unfolding run_threads
run_threads-cases create zero first threads = inl (refl, λ j a b. absurd (omega arith))
run_threads-cases create (suc n) first threads = elim (Option-cases (create first)) [
  | inr (e, here) ↦
      rw (run_threads, here)
        (inr (
          first,
          refl,
          record {
            from = omega arith;
            below = omega arith;
            fails = λ z. cc;
            before = λ j a b. absurd (omega arith);
          },
        ))
  | inl here ↦
      let go_back = λ (j : ℕ) (a : first ≤ j) (later : suc first ≤ j → create j ≡ none).
        earlier create first j here a later in
      rw (run_threads, here)
        (elim (run_threads-cases create n (suc first) (threads ++ ok 0 ∷ [])) [
          | inl (e, all) ↦ inl (e, λ j a b. go_back j a (λ c. all j c (omega arith)))
          | inr (i, e, f) ↦ inr (
            i,
            e,
            record {
              from = omega (arith, f.from);
              below = omega (arith, f.below);
              fails = f.fails;
              before = λ j a b. go_back j a (λ c. f.before j c b);
            },
          )
        ])
]

stop_down-last : (i : ℕ) → (stop_down i).1 ≡ 0
unfolding stop_down
stop_down-last zero = refl
stop_down-last (suc i) = stop_down-last i

-- The threads stopped are exactly those below the failed one, each once.
stop_down-count : (i j : ℕ) → count j (stop_down i).0 ≡ (if leb i j then 0 else 1)
unfolding stop_down
stop_down-count zero j = ground arith
stop_down-count (suc i) j = ground (arith, stop_down-count i j)

-- What a load that failed at thread `i` leaves: the threads before it stopped, each once, and none
-- running; and its result is read from index -1 of the array.
pub record CleanedUp (i : ℕ) (load : Load) : Type 0 where
  pub none_run : load.running ≡ []
  pub stopped_once : (j : ℕ) → count j load.stopped ≡ (if leb i j then 0 else 1)
  pub undefined : load.ret ≡ none

clean_up-CleanedUp : (i : ℕ) (threads : List (Result ℕ)) → CleanedUp i (clean_up i threads)
unfolding clean_up
clean_up-CleanedUp i threads = record {
  none_run = refl;
  stopped_once = stop_down-count i;
  undefined = rw stop_down-last;
}

conclude-none : (n : ℕ) (r : Option ℕ × List (Result ℕ)) → r.0 ≡ none → conclude n r ≡ all_running n
unfolding conclude
conclude-none n (none, threads) e = refl
conclude-none n (some i, threads) e = cc

conclude-some :
    (n i : ℕ) (r : Option ℕ × List (Result ℕ)) → r.0 ≡ some i → CleanedUp i (conclude n r)
unfolding conclude
conclude-some n i (none, threads) e = cc
conclude-some n i (some k, threads) e =
    subst (λ j. CleanedUp j (clean_up k threads)) (cc) (clean_up-CleanedUp k threads)

-- `lockfree_list_init` runs all three threads and returns 0; or, at the first thread that cannot be
-- created, it stops each thread before that one, once, and then returns an error code that it reads
-- from index -1 of its array, where the cleanup loop has left its counter.
pub lockfree_list_init-cases :
    (create : ℕ → Option Errno)
    → (AllCreated create 0 3 × (lockfree_list_init create ≡ all_running 3))
      ⊎ ((i : ℕ) × FirstFailure create 0 3 i × CleanedUp i (lockfree_list_init create))
unfolding lockfree_list_init
lockfree_list_init-cases create = elim (run_threads-cases create 3 0 []) [
  | inl (e, all) ↦ inl (all, conclude-none 3 _ e)
  | inr (i, e, f) ↦ inr (i, f, conclude-some 3 i _ e)
]

after_threads-some :
    (api : RefcountApi) (m : Memory) (o : Option ℕ) (i : ℕ)
    → 1 ≤ api.limit
    → o ≡ some i
    → m.refcount ≡ 1
    → (after_threads api m o).live ≡ false
unfolding after_threads
after_threads-some api m none i room e one = cc
after_threads-some api m (some k) i room e one = ground (arith, api.dec_pos m.refcount)

after_threads-none :
    (api : RefcountApi) (m : Memory) (o : Option ℕ) → o ≡ none → after_threads api m o ≡ m
unfolding after_threads
after_threads-none api m none e = refl
after_threads-none api m (some k) e = cc

-- With memory, `refcount_example_init` runs all four threads and returns 0, the resource shared; or,
-- at the first thread that cannot be created, it stops each thread before that one, once, and frees
-- the resource, and then returns an error code that it reads from index -1 of its array.
pub refcount_example_init-cases :
    (api : RefcountApi) (create : ℕ → Option Errno) (room : 1 ≤ api.limit)
    → let r = refcount_example_init api true create in
      (m : Memory) × (r.1 ≡ some m)
      × ((AllCreated create 0 4 × (r.0 ≡ all_running 4) × (m.live ≡ true) × (m.shared ≡ true))
          ⊎ ((i : ℕ) × FirstFailure create 0 4 i × CleanedUp i r.0 × (m.live ≡ false)))
unfolding refcount_example_init
refcount_example_init-cases api create room = elim (run_threads-cases create 4 0 []) [
  | inl (e, all) ↦ (
    _,
    refl,
    inl (
      all,
      conclude-none 4 _ e,
      ap (λ (m : Memory). m.live) (after_threads-none api _ _ e),
      ap (λ (m : Memory). m.shared) (after_threads-none api _ _ e),
    ),
  )
  | inr (i, e, f) ↦
      (_, refl, inr (i, f, conclude-some 4 i _ e, after_threads-some api _ _ i room e refl))
]
