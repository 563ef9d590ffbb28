-- ===== src/Notifiers/Custom.antt =====
-- notifiers/part4/custom_notifier.c: three callbacks on a chain, and a thread that sends events
-- through it.
pub mod Cycles
pub mod Load
mod Examples
use linux_kernel_prog.Prelude.{
  ℕ, zero, suc, ◌+◌, ◌==◌, Bool, true, false, Option, none, some, List, [], ◌∷◌, ◌++◌,
  if◌then◌else◌,
}
use linux_kernel_prog.Kernel.{Errno}
use linux_kernel_prog.Notifiers.Chain.{Block, ChainApi}

abbrev pub event_start : ℕ
event_start = 1

abbrev pub event_work : ℕ
event_work = 2

abbrev pub event_stop : ℕ
event_stop = 3

-- The callbacks, by their priority.
pub data Callback : Type 0 where
  high_priority_callback : Callback
  medium_priority_callback : Callback
  low_priority_callback : Callback

-- What a callback prints: by which of its branches, and `*counter`.
pub record Print : Type 0 where
  pub by : Callback
  pub event : ℕ
  pub counter : ℕ

-- The `switch` is the same in the three callbacks, and so is the result, NOTIFY_OK.
unfoldable pub notifier_call : Callback → (event counter : ℕ) → List Print
notifier_call f event counter =
    let print = record { by = f; event = event; counter = counter } ∷ [] in
    if event == event_start
    then print
    else (if event == event_work then print else (if event == event_stop then print else []))

abbrev pub high_priority_nb : Block Callback
high_priority_nb = record { notifier_call = high_priority_callback; priority = 100 }

abbrev pub medium_priority_nb : Block Callback
medium_priority_nb = record { notifier_call = medium_priority_callback; priority = 50 }

abbrev pub low_priority_nb : Block Callback
low_priority_nb = record { notifier_call = low_priority_callback; priority = 0 }

-- `raw_notifier_call_chain`: every block is called, since none returns NOTIFY_STOP.
unfoldable pub call_chain : List (Block Callback) → (event counter : ℕ) → List Print
unfolding notifier_call
call_chain [] event counter = []
call_chain (b ∷ bs) event counter =
    notifier_call b.notifier_call event counter ++ call_chain bs event counter

-- The body of the loop, for `event_count`.
unfoldable pub event_cycle : List (Block Callback) → (event_count : ℕ) → List Print
unfolding call_chain
event_cycle bs i =
    call_chain bs event_start i ++ call_chain bs event_work i ++ call_chain bs event_stop i

-- The thread, with what is printed and the last `event_count`. Whether it should stop is asked
-- before each round, and the answer is an argument.
unfoldable pub generate :
    (should_stop : ℕ → Bool) → List (Block Callback) → (rounds i event_count : ℕ) → List Print × ℕ
unfolding event_cycle
generate should_stop bs zero i event_count = ([], event_count)
generate should_stop bs (suc rounds) i event_count =
    let rest = generate should_stop bs rounds (i + 1) i in
    if should_stop i then ([], event_count) else (event_cycle bs i ++ rest.0, rest.1)

unfoldable pub event_generator_fn :
    (should_stop : ℕ → Bool) → List (Block Callback) → (event_count : ℕ) → List Print × ℕ
unfolding generate
event_generator_fn should_stop bs event_count = generate should_stop bs 10 1 event_count

module _ (api : ChainApi Callback) where
  unfoldable pub unregister_low : api.Chain → api.Chain
  unregister_low c = api.unregister low_priority_nb c

  unfoldable pub unregister_medium : api.Chain → api.Chain
  unfolding unregister_low
  unregister_medium c = unregister_low (api.unregister medium_priority_nb c)

  unfoldable pub unregister_high : api.Chain → api.Chain
  unfolding unregister_medium
  unregister_high c = unregister_medium (api.unregister high_priority_nb c)

  -- The thread is there or its creation has failed.
  unfoldable pub start_generator : (thread : Option Errno) → api.Chain → Option Errno × api.Chain
  unfolding unregister_high
  start_generator none c = (none, c)
  start_generator (some e) c = (some e, unregister_high c)

  unfoldable pub register_high : (thread : Option Errno) → api.Chain → Option Errno × api.Chain
  unfolding start_generator
  register_high thread c =
      let (ret, c') = api.register high_priority_nb c in
      elim ret [ none ↦ start_generator thread c' | some e ↦ (some e, unregister_medium c') ]

  unfoldable pub register_medium : (thread : Option Errno) → api.Chain → Option Errno × api.Chain
  unfolding register_high
  register_medium thread c =
      let (ret, c') = api.register medium_priority_nb c in
      elim ret [ none ↦ register_high thread c' | some e ↦ (some e, unregister_low c') ]

  -- The error, if any, and the chain.
  unfoldable pub custom_notifier_init :
      (thread : Option Errno) → api.Chain → Option Errno × api.Chain
  unfolding register_medium
  custom_notifier_init thread c =
      let (ret, c') = api.register low_priority_nb c in
      elim ret [ none ↦ register_medium thread c' | some e ↦ (some e, c') ]

  -- The thread has been stopped before.
  unfoldable pub custom_notifier_exit : api.Chain → api.Chain
  custom_notifier_exit c =
      api.unregister low_priority_nb
        (api.unregister medium_priority_nb (api.unregister high_priority_nb c))
