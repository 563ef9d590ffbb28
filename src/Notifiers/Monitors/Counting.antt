-- ===== src/Notifiers/Monitors/Counting.antt =====
-- The counters of the monitors after any sequence of events.
use linux_kernel_prog.Prelude.{ℕ, ◌%◌, ◌^◌, ◌≡◌, refl, List, [], ◌∷◌, arith, length, weigh}
use linux_kernel_prog.Notifiers.Monitors.{
  Counters, no_events, ModuleState, module_state_coming, module_state_live, module_state_going,
  other_state, NetdevEvent, netdev_up, netdev_down, netdev_register, netdev_unregister,
  netdev_changemtu, netdev_changeaddr, other_event, module_notifier_callback,
  netdev_notifier_callback, inet_notifier_callback,
}

module _ {Event : Type 0} where
  -- The counters after the events, the newest first.
  abbrev pub after_events : (Event → Counters → Counters) → List Event → Counters
  after_events callback [] = no_events
  after_events callback (e ∷ earlier) = callback e (after_events callback earlier)

  -- The counters are the numbers of the events, of the ups and of the downs, modulo 2^32.
  pub record IsCounted (up down : Event → ℕ) (es : List Event) (c : Counters) : Type 0 where
    pub total : c.total ≡ length es % 2 ^ 32
    pub ups : c.ups ≡ weigh up es % 2 ^ 32
    pub downs : c.downs ≡ weigh down es % 2 ^ 32

abbrev pub is_coming : ModuleState → ℕ
is_coming module_state_coming = 1
is_coming _ = 0

abbrev pub is_going : ModuleState → ℕ
is_going module_state_going = 1
is_going _ = 0

abbrev pub is_up : NetdevEvent → ℕ
is_up netdev_up = 1
is_up _ = 0

abbrev pub is_down : NetdevEvent → ℕ
is_down netdev_down = 1
is_down _ = 0

module-step :
    (e : ModuleState) (es : List ModuleState) (c : Counters)
    → IsCounted is_coming is_going es c
    → IsCounted is_coming is_going (e ∷ es) (module_notifier_callback e c)
unfolding module_notifier_callback
module-step module_state_coming es c h = ground (arith, h.total, h.ups, h.downs)
module-step module_state_live es c h = ground (arith, h.total, h.ups, h.downs)
module-step module_state_going es c h = ground (arith, h.total, h.ups, h.downs)
module-step (other_state n) es c h = ground (arith, h.total, h.ups, h.downs)

netdev-step :
    (e : NetdevEvent) (es : List NetdevEvent) (c : Counters)
    → IsCounted is_up is_down es c
    → IsCounted is_up is_down (e ∷ es) (netdev_notifier_callback e c)
unfolding netdev_notifier_callback
netdev-step netdev_up es c h = ground (arith, h.total, h.ups, h.downs)
netdev-step netdev_down es c h = ground (arith, h.total, h.ups, h.downs)
netdev-step netdev_register es c h = ground (arith, h.total, h.ups, h.downs)
netdev-step netdev_unregister es c h = ground (arith, h.total, h.ups, h.downs)
netdev-step netdev_changemtu es c h = ground (arith, h.total, h.ups, h.downs)
netdev-step netdev_changeaddr es c h = ground (arith, h.total, h.ups, h.downs)
netdev-step (other_event n) es c h = ground (arith, h.total, h.ups, h.downs)

inet-netdev :
    (e : NetdevEvent) (c : Counters) → inet_notifier_callback e c ≡ netdev_notifier_callback e c
unfolding netdev_notifier_callback inet_notifier_callback
inet-netdev netdev_up c = refl
inet-netdev netdev_down c = refl
inet-netdev netdev_register c = refl
inet-netdev netdev_unregister c = refl
inet-netdev netdev_changemtu c = refl
inet-netdev netdev_changeaddr c = refl
inet-netdev (other_event n) c = refl

module-IsCounted :
    (es : List ModuleState)
    → IsCounted is_coming is_going es (after_events module_notifier_callback es)
module-IsCounted [] = record { total = refl; ups = refl; downs = refl }
module-IsCounted (e ∷ es) =
    module-step e es (after_events module_notifier_callback es) (module-IsCounted es)

netdev-IsCounted :
    (es : List NetdevEvent) → IsCounted is_up is_down es (after_events netdev_notifier_callback es)
netdev-IsCounted [] = record { total = refl; ups = refl; downs = refl }
netdev-IsCounted (e ∷ es) =
    netdev-step e es (after_events netdev_notifier_callback es) (netdev-IsCounted es)

inet-IsCounted :
    (es : List NetdevEvent) → IsCounted is_up is_down es (after_events inet_notifier_callback es)
inet-IsCounted [] = record { total = refl; ups = refl; downs = refl }
inet-IsCounted (e ∷ es) =
    rw (inet-netdev e (after_events inet_notifier_callback es))
      (netdev-step e es (after_events inet_notifier_callback es) (inet-IsCounted es))

-- After any sequence of events each of the three monitors has counted all of them, those of the
-- first kind and those of the second, modulo 2^32, and no other event in their place.
pub monitors-IsCounted :
    (states : List ModuleState) (events addresses : List NetdevEvent)
    → IsCounted is_coming is_going states (after_events module_notifier_callback states)
      × IsCounted is_up is_down events (after_events netdev_notifier_callback events)
      × IsCounted is_up is_down addresses (after_events inet_notifier_callback addresses)
monitors-IsCounted states events addresses =
    (module-IsCounted states, netdev-IsCounted events, inet-IsCounted addresses)
