-- ===== src/Notifiers/Monitors/Examples.antt =====
-- The theorems on the monitors at short histories, and on a chain that is a list.
use linux_kernel_prog.Prelude.{◌≡◌, refl, some, List, [], ◌∷◌, leb}
use linux_kernel_prog.Kernel.{Errno}
use linux_kernel_prog.Notifiers.ListChain.{list_chain, list_chain-IsChain}
use linux_kernel_prog.Notifiers.Monitors.{
  ModuleState, module_state_coming, module_state_live, module_state_going, other_state, NetdevEvent,
  netdev_up, netdev_down, netdev_changemtu, module_nb, netdev_nb, inet_nb, module_notifier_callback,
  netdev_notifier_callback, inet_notifier_callback, module_notifier_init, netdev_notifier_init,
  inet_notifier_init, stats_thread_fn, stats, monitoring, no_events,
}
use linux_kernel_prog.Notifiers.Monitors.Load.{Undone, monitors-Undone}
use linux_kernel_prog.Notifiers.Monitors.Counting.{
  after_events, IsCounted, is_coming, is_going, is_up, is_down, monitors-IsCounted,
}

monitors-Undone_example :
    Undone list_chain module_nb [] (module_notifier_init list_chain (some Errno.enomem) [])
    × Undone list_chain netdev_nb [] (netdev_notifier_init list_chain (some Errno.enomem) [])
    × Undone list_chain inet_nb [] (inet_notifier_init list_chain (some Errno.enomem) [])
monitors-Undone_example = monitors-Undone list_chain list_chain-IsChain (some Errno.enomem) []

abbrev states : List ModuleState
states = module_state_going ∷ module_state_live ∷ module_state_coming ∷ other_state 9 ∷ []

abbrev events : List NetdevEvent
events = netdev_down ∷ netdev_changemtu ∷ netdev_up ∷ netdev_up ∷ []

monitors-IsCounted_example :
    IsCounted is_coming is_going states (after_events module_notifier_callback states)
    × IsCounted is_up is_down events (after_events netdev_notifier_callback events)
    × IsCounted is_up is_down [] (after_events inet_notifier_callback [])
monitors-IsCounted_example = monitors-IsCounted states events []

-- A thread that is told to stop in its third round.
two_rounds :
    stats_thread_fn (leb 2) (λ i. no_events) ≡ stats no_events ∷ monitoring ∷ stats no_events ∷ []
unfolding stats_thread_fn
two_rounds = refl
