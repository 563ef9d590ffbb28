-- ===== src/Notifiers/Monitors.antt =====
-- notifiers/part1/module_notifier.c, notifiers/part2/netdev_notifier.c and
-- notifiers/part2/inet_notifier.c: each counts the events of one chain, and has a thread that prints
-- the counts.
pub mod Counting
pub mod Load
mod Examples
use linux_kernel_prog.Prelude.{
  ℕ, zero, suc, ◌+◌, ◌%◌, ◌^◌, ◌==◌, Bool, Option, none, some, List, [], ◌∷◌, ◌++◌, if◌then◌else◌,
}
use linux_kernel_prog.Kernel.{Errno}
use linux_kernel_prog.Notifiers.Chain.{Block, ChainApi}

-- `module_events`, `netdev_events` or `inet_events`; `load_events`, `up_events` or
-- `addr_add_events`; `unload_events`, `down_events` or `addr_del_events`.
pub record Counters : Type 0 where
  pub total : ℕ
  pub ups : ℕ
  pub downs : ℕ

abbrev pub no_events : Counters
no_events = record { total = 0; ups = 0; downs = 0 }

-- `++` on an int of 32 bits.
abbrev pub increment : ℕ → ℕ
increment n = (n + 1) % 2 ^ 32

abbrev pub count_up : Counters → Counters
count_up c = record c { ups = increment c.ups }

abbrev pub count_down : Counters → Counters
count_down c = record c { downs = increment c.downs }

abbrev pub count_event : Counters → Counters
count_event c = record c { total = increment c.total }

pub data ModuleState : Type 0 where
  module_state_coming : ModuleState
  module_state_live : ModuleState
  module_state_going : ModuleState
  other_state : ℕ → ModuleState

unfoldable pub module_notifier_callback : ModuleState → Counters → Counters
module_notifier_callback module_state_coming c = count_up (count_event c)
module_notifier_callback module_state_live c = count_event c
module_notifier_callback module_state_going c = count_down (count_event c)
module_notifier_callback (other_state n) c = count_event c

pub data NetdevEvent : Type 0 where
  netdev_up : NetdevEvent
  netdev_down : NetdevEvent
  netdev_register : NetdevEvent
  netdev_unregister : NetdevEvent
  netdev_changemtu : NetdevEvent
  netdev_changeaddr : NetdevEvent
  other_event : ℕ → NetdevEvent

unfoldable pub netdev_notifier_callback : NetdevEvent → Counters → Counters
netdev_notifier_callback netdev_up c = count_up (count_event c)
netdev_notifier_callback netdev_down c = count_down (count_event c)
netdev_notifier_callback netdev_register c = count_event c
netdev_notifier_callback netdev_unregister c = count_event c
netdev_notifier_callback netdev_changemtu c = count_event c
netdev_notifier_callback netdev_changeaddr c = count_event c
netdev_notifier_callback (other_event n) c = count_event c

-- The addresses of an interface come with the events of an interface.
unfoldable pub inet_notifier_callback : NetdevEvent → Counters → Counters
inet_notifier_callback netdev_up c = count_up (count_event c)
inet_notifier_callback netdev_down c = count_down (count_event c)
inet_notifier_callback netdev_register c = count_event c
inet_notifier_callback netdev_unregister c = count_event c
inet_notifier_callback netdev_changemtu c = count_event c
inet_notifier_callback netdev_changeaddr c = count_event c
inet_notifier_callback (other_event n) c = count_event c

-- What a thread prints: the counts, and every five rounds a second line.
pub data Line : Type 0 where
  stats : Counters → Line
  monitoring : Line

-- The loop of a thread, with the counts and the answer of `kthread_should_stop` in each round.
unfoldable pub monitor : (should_stop : ℕ → Bool) (counts : ℕ → Counters) (rounds i : ℕ) → List Line
monitor should_stop counts zero i = []
monitor should_stop counts (suc rounds) i =
    let rest = monitor should_stop counts rounds (i + 1) in
    if should_stop i
    then []
    else (stats (counts i) ∷ (if i % 5 == 0 then monitoring ∷ rest else rest))

unfoldable pub stats_thread_fn : (should_stop : ℕ → Bool) (counts : ℕ → Counters) → List Line
unfolding monitor
stats_thread_fn should_stop counts = monitor should_stop counts 20 0

unfoldable pub netdev_monitor_thread_fn :
    (should_stop : ℕ → Bool) (counts : ℕ → Counters) → List Line
unfolding monitor
netdev_monitor_thread_fn should_stop counts = monitor should_stop counts 20 0

unfoldable pub inet_monitor_thread_fn : (should_stop : ℕ → Bool) (counts : ℕ → Counters) → List Line
unfolding monitor
inet_monitor_thread_fn should_stop counts = monitor should_stop counts 15 0

-- The three callbacks, each on a chain of its own.
pub data Callback : Type 0 where
  module_callback : Callback
  netdev_callback : Callback
  inet_callback : Callback

abbrev pub module_nb : Block Callback
module_nb = record { notifier_call = module_callback; priority = 0 }

abbrev pub netdev_nb : Block Callback
netdev_nb = record { notifier_call = netdev_callback; priority = 0 }

abbrev pub inet_nb : Block Callback
inet_nb = record { notifier_call = inet_callback; priority = 0 }

module _ (api : ChainApi Callback) where
  -- The thread is there, or its creation has failed and the block is taken out again.
  unfoldable pub start_thread :
      Block Callback → (thread : Option Errno) → api.Chain → Option Errno × api.Chain
  start_thread b none c = (none, c)
  start_thread b (some e) c = (some e, api.unregister b c)

  unfoldable pub module_notifier_init :
      (thread : Option Errno) → api.Chain → Option Errno × api.Chain
  unfolding start_thread
  module_notifier_init thread c =
      let (ret, c') = api.register module_nb c in
      elim ret [ none ↦ start_thread module_nb thread c' | some e ↦ (some e, c') ]

  unfoldable pub netdev_notifier_init :
      (thread : Option Errno) → api.Chain → Option Errno × api.Chain
  unfolding start_thread
  netdev_notifier_init thread c =
      let (ret, c') = api.register netdev_nb c in
      elim ret [ none ↦ start_thread netdev_nb thread c' | some e ↦ (some e, c') ]

  unfoldable pub inet_notifier_init : (thread : Option Errno) → api.Chain → Option Errno × api.Chain
  unfolding start_thread
  inet_notifier_init thread c =
      let (ret, c') = api.register inet_nb c in
      elim ret [ none ↦ start_thread inet_nb thread c' | some e ↦ (some e, c') ]

  -- The threads have been stopped before.
  unfoldable pub module_notifier_exit : api.Chain → api.Chain
  module_notifier_exit c = api.unregister module_nb c

  unfoldable pub netdev_notifier_exit : api.Chain → api.Chain
  netdev_notifier_exit c = api.unregister netdev_nb c

  unfoldable pub inet_notifier_exit : api.Chain → api.Chain
  inet_notifier_exit c = api.unregister inet_nb c
